-- ===== src/Bus/Credit.antt =====
-- The wallet service behind the event bus: tec-wallet-service/src/wallet-event-consumer.ts hands the
-- entries of the stream `payment.completed` to `handlePaymentCompleted`, while the service also
-- serves its requests.
use tec_core_backend.Base.{
  ℕ, Bool, true, false, Option, none, some, List, [], ◌∷◌, ◌≡◌, refl, Option-cases, inl, inr, arith,
}
use tec_core_backend.Base.Action.{Result, ok, err}
use tec_core_backend.Base.Table.{Table}
use tec_core_backend.Bus.{StreamGroup, Event, step}
use tec_core_backend.Bus.Delivery.{Marks, is_accounted, step-accounted, step-kept}
use tec_core_backend.Wallet.Types.{Wallet, State, Thrown, Env}
use tec_core_backend.Wallet.Credit.{PaymentCompletedEvent, is_processed, handle_payment_completed}
use tec_core_backend.Wallet.Ledger.Accounts.{Request, payment_request, run_request}
use tec_core_backend.Wallet.Ledger.Once.{request-Has, handled-Has}
use tec_core_backend.Wallet.Ledger.Payments.{IsCounted, handled-IsCounted, request-IsCounted}

-- A handler has returned.
unfoldable pub has_returned : Result Thrown (Unit {0}) → Bool
has_returned (ok a) = true
has_returned (err e) = false

returned_ok : (r : Result Thrown (Unit {0})) → has_returned r ≡ true → r ≡ ok tt
unfolding has_returned
returned_ok (ok tt) h = refl
returned_ok (err e) h = absurd (ground (arith, h))

-- What the service does: a step of the consumer, or a request.
pub data Work : Type 0 where
  consumed : Event Env → Work
  requested : Request → Work

module _ (T : Table Wallet) where
  open T use {Rows}

  -- The `handler` of the consumer.
  unfoldable pub handler : Env → PaymentCompletedEvent → State Rows → Bool × State Rows
  handler env event s = let (r, s') = handle_payment_completed T env event s in (has_returned r, s')

  -- The payment of the event is in `processed_events`.
  abbrev pub is_credited : PaymentCompletedEvent → State Rows → Bool
  is_credited event s = elim event.payment_id [ none ↦ false | some p ↦ is_processed p s.processed ]

  processed_credited :
      (event : PaymentCompletedEvent) (p : ℕ) (s : State Rows)
      → event.payment_id ≡ some p
      → is_processed p s.processed ≡ true
      → is_credited event s ≡ true
  processed_credited event p s e h = rw e h

  unnamed_throws :
      (env : Env) (event : PaymentCompletedEvent) (s : State Rows)
      → event.payment_id ≡ none
      → (handler env event s).0 ≡ true
      → ⊥
  unfolding handler has_returned handle_payment_completed
  unnamed_throws env event s e h = ground (arith, e, h)

  pub returned-is_credited :
      (env : Env) (event : PaymentCompletedEvent) (s : State Rows)
      → (handler env event s).0 ≡ true
      → is_credited event (handler env event s).1 ≡ true
  unfolding handler
  returned-is_credited env event s h = elim (Option-cases event.payment_id) [
    | inl e ↦ absurd (unnamed_throws env event s e h)
    | inr (p, e) ↦ processed_credited event p (handle_payment_completed T env event s).1 e (
        handled-Has T env event p s tt e (returned_ok (handle_payment_completed T env event s).0 h))
  ]

  request-is_credited :
      (q : Request) (event : PaymentCompletedEvent) (s : State Rows)
      → is_credited event s ≡ true
      → is_credited event (run_request T q s) ≡ true
  request-is_credited q event s h = elim (Option-cases event.payment_id) [
    | inl e ↦ rw e (rw e at h)
    | inr (p, e) ↦ rw e (request-Has T q p s (rw e at h))
  ]

  pub kept-is_credited :
      (env : Env) (event other : PaymentCompletedEvent) (s : State Rows)
      → is_credited other s ≡ true
      → is_credited other (handler env event s).1 ≡ true
  unfolding handler run_request
  kept-is_credited env event other s h = request-is_credited (payment_request env event) other s h

  abbrev pub wallet_marks : Marks handler
  wallet_marks = record {
    is_done = is_credited;
    done-returned = returned-is_credited;
    done-kept = kept-is_credited;
  }

  module _ (R : StreamGroup) (data_of : ℕ → Option PaymentCompletedEvent) where
    open R use {Group}

    unfoldable pub work : Work → Group × State Rows → Group × State Rows
    work (consumed e) w = step R data_of handler e w
    work (requested q) (g, s) = (g, run_request T q s)

    unfoldable pub work_all : List Work → Group × State Rows → Group × State Rows
    work_all [] w = w
    work_all (x ∷ xs) w = work_all xs (work x w)

    -- The event of an entry waits, or is credited; and every payment that is credited is credited
    -- once.
    abbrev pub IsSettled : ℕ → PaymentCompletedEvent → Group × State Rows → Type 0
    IsSettled i event w =
        (is_accounted R data_of handler wallet_marks i event w ≡ true) × IsCounted T w.1

    work-IsSettled :
        (x : Work) (i : ℕ) (event : PaymentCompletedEvent) (w : Group × State Rows)
        → data_of i ≡ some event
        → IsSettled i event w
        → IsSettled i event (work x w)
    unfolding work handler
    work-IsSettled (consumed e) i event w here (waits, counted) = (
      step-accounted R data_of handler wallet_marks e i event w here waits,
      step-kept R data_of handler (IsCounted T) (λ env ev. handled_kept env ev) e w counted,
    )
      where
        handled_kept :
            (env : Env) (ev : PaymentCompletedEvent) (s : State Rows)
            → IsCounted T s
            → IsCounted T (handler env ev s).1
        handled_kept env ev s h = handled-IsCounted T env ev s h
    work-IsSettled (requested q) i event (g, s) here (waits, counted) =
        (ground (arith, waits, request_credited), request-IsCounted T q s counted)
      where
        request_credited : is_credited event s ≡ true → is_credited event (run_request T q s) ≡ true
        request_credited = request-is_credited q event s

    -- While requests are served and the consumer reads, fails, stops and starts again in any order,
    -- two things stay so: an entry of the stream that carries an event of a payment waits to be read
    -- or acknowledged, or the payment is credited; and the payments that are credited are
    -- different from each other, and as many as the entries of the ledger that credit one.
    pub work_all-IsSettled :
        (xs : List Work) (i : ℕ) (event : PaymentCompletedEvent) (w : Group × State Rows)
        → data_of i ≡ some event
        → IsSettled i event w
        → IsSettled i event (work_all xs w)
    unfolding work_all
    work_all-IsSettled [] i event w here h = h
    work_all-IsSettled (x ∷ xs) i event w here h =
        work_all-IsSettled xs i event (work x w) here (work-IsSettled x i event w here h)
