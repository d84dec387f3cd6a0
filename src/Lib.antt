-- ===== src/Lib.antt =====
-- Verification of the TEC backend, a set of services behind an API gateway: payments over the Pi
-- network and the wallets that they credit.
--
-- A client asks the payment service to create a payment and, while it settles it with the Pi API, to
-- approve, complete, cancel or fail it. Pi's own webhook, a reconciliation job and a handler for
-- incomplete payments change the same rows. A completed payment is announced as an event; the wallet
-- service credits a wallet for it and moves money between wallets; the commerce service keeps
-- orders, which hold stock until they are cancelled, and listens to the same events; it also keeps
-- subscriptions. An outbox worker publishes the events that are kept in a table. The KYC service
-- keeps how far each user is identified, the authentication service gives users their tokens, and the
-- asset service lets users sell assets to each other; the identity service keeps their profiles and
-- the storage service their files. Events travel between the services on Redis streams. All
-- requests pass the gateway, which checks their tokens, keeps some replies in a cache and forwards
-- them.
--
-- Files, and the code that each is about (paths from the root of the repository):
--   Base             tests, integers, texts, actions with throws and transactions, and the interface
--                    of a database table (Base/Table/Laws) with a list that satisfies it
--                    (Base/Table/Rows), or of one that is read by a unique column
--                    (Base/Table/Keyed), or page by page (Base/Table/Listing, with a sorted list in
--                    Base/Table/Sorted); the pages of a listing and a client that reads them all
--                    (Base/Pages)
--   Payment/PiApi    `callPiApi` and the circuit breaker, tec-payment-service/src/services/payment.service.ts
--   Payment/Types, Calls, Approval, Completion, Closing, Transitions, Diagram, Requests
--                    the handlers of tec-payment-service/src/controllers/payment.controller.ts
--   Payment/History  `getPaymentHistory`, in the same file, with src/routes/payment.routes.ts
--   Payment/Resolution  `resolveIncompletePayment`, in the same file
--   Payment/Reconciliation  tec-payment-service/src/services/reconciliation.service.ts
--   Payment/Webhook  `handleIncompletePayment` and, in Payment/Webhook/Signature, `validatePiSignature`,
--                    tec-payment-service/src/controllers/webhook.controller.ts
--   Payment/RateLimit  tec-payment-service/src/middlewares/rate-limit.middleware.ts
--   Payment/Server   src/app.ts and src/routes/payment.routes.ts of the same service
--   Payment/Idempotency  tec-payment-service/src/middlewares/idempotency.middleware.ts
--   Payment/Outbox   tec-payment-service/src/services/outbox.worker.ts and outbox.service.ts
--   Assets           tec-asset-service/src/modules/marketplace/marketplace.service.ts and
--                    src/modules/asset/asset.service.ts
--   Auth             tec-auth-service/src/modules/auth/auth.service.ts
--   Commerce         tec-commerce-service/src/modules/order/order.service.ts and order.consumer.ts
--   Commerce/Listing  `listOrders` there and in order.controller.ts
--   Commerce/Subscriptions  src/modules/subscription/subscription.service.ts of the same service
--   Wallet           tec-wallet-service/src/controllers/wallet.controller.ts and
--                    src/wallet/wallet.service.ts
--   Wallet/Reads     the handlers of wallet.controller.ts that only read
--   Wallet/Limiter   tec-wallet-service/src/middlewares/rateLimit.middleware.ts
--   Storage          tec-storage-service/src/modules/storage
--   Tokens           tec-wallet-service/src/middlewares/jwt.middleware.ts, which other services repeat
--   Wallet/Server    src/index.ts, src/routes/wallet.routes.ts and src/middleware/internal-auth.ts of
--                    the wallet service; Wallet/Server/Mint puts it behind the gateway
--   Bus              shared/src/event-bus/index.ts; Bus/Credit gives it the handler of
--                    tec-wallet-service/src/wallet-event-consumer.ts, and Bus/Paid says when every
--                    payment is credited
--   Gateway/Cache    tec-api-gateway/src/middleware/cache.middleware.ts
--   Gateway/Requests, Pipeline, Guard
--                    src/middleware/jwt-auth.ts, src/main.ts and src/modules/proxy of the gateway
--   Identity         tec-identity-service/src/modules/identity
--   Kyc              tec-kyc-service/src/modules/kyc/kyc.service.ts and kyc.controller.ts
--
-- A handler is a function from what it meets (an `Env`) and a state to a reply and a state. The state
-- holds the tables, the audit log, the circuit breaker and the events. The early returns of a handler
-- and its throws are errors of an action; `run_try` is its `try`, with its `catch` clause as a
-- function. `transaction` takes back what was written before a throw. Prisma is not part of the
-- repository: the model takes a table with the laws of its documented calls, and a call throws
-- wherever the `Env` says so, so that the theorems hold for any pattern of failing calls. Pi's answers, the
-- clock, the validators, `parseFloat`, `toLowerCase` and the calendar are parameters too; so is what
-- the gateway and the authentication take from jsonwebtoken, bcrypt, Redis, Express,
-- express-rate-limit, swagger-ui and the proxy. What other requests do while a handler waits for Pi,
-- or between its tests and its transaction, is the function `meanwhile` of the `Env`.
--
-- The listings take rows in the order of a column from Prisma, with the law that equal times come in
-- the same order in every call; a client reads pages with fuel, and one more than the number of rows
-- is enough. The HMAC of a webhook is a parameter.
--
-- A consumer group of a Redis stream and the counters of Redis are records of operations with laws, a
-- handler of an event is any function of a state, and the components meet in Bus/Credit (the event
-- bus, the consumer and the operations of the wallet service, in any order) and in Wallet/Server/Mint
-- (the gateway, the proxy and the wallet service).
--
-- Amounts are integers in units of 10^-8, the scale of the `Decimal(20, 8)` columns, and are exact,
-- but for the test of doubles `Number(balance) < amount`, which is a parameter: the theorems that
-- need it ask that it is right from 0 to 10^15 units, the decimals of 15 digits, which a double tells
-- apart. Neither the floats that some handlers compute for the audit log nor the 20 digits of a column
-- are modelled. Ids are numbers, since they are only compared. The retries of `callPiApi` recurse on the
-- attempts that are left, 3 at the start as `MAX_RETRIES`. The loop of the gateway's cleanup has fuel,
-- since it need not end: Gateway/Cache/Cleanup says when it does and how much fuel is enough. All other
-- definitions terminate by structural recursion. A JavaScript `Map` is the list of its entries in the
-- order of their insertion, and an iterator of it is a place in that list.
--
-- Not modelled: the products of the commerce service, and the services for notifications, analytics
-- and realtime messages, which store or forward what they get; HTTP, logging and metrics, the queries of
-- the services for assets and files that only read, writes between two pages of a listing, and two
-- transactions that run at the same time (a database that lets them interleave may let a handler
-- see a balance that another one changes).
pub mod Base
pub mod Assets
pub mod Auth
pub mod Bus
pub mod Commerce
pub mod Gateway
pub mod Identity
pub mod Kyc
pub mod Payment
pub mod Storage
pub mod Tokens
pub mod Wallet
