-- ===== src/Wallet/Types.antt =====
-- The data of the wallet service: its tables (tec-wallet-service/prisma/schema.prisma), replies and
-- errors. Amounts are integers, in units of 10^-8, the scale of the `Decimal(20, 8)` columns; uuids
-- are numbers, since they are only compared.
use tec_core_backend.Base.{ℕ, Bool, Option, List, ◌∷◌, String}
use tec_core_backend.Base.Action.{Action, ◌>>=◌, ◌>>◌, pure, or_throw, throw_if, modify}
use tec_core_backend.Base.Int.{ℤ, ◌+ℤ◌, ◌-ℤ◌}
use tec_core_backend.Base.Table.{Table}

pub record Wallet : Type 0 where
  pub user_id : ℕ
  pub wallet_address : Option ℕ
  pub wallet_type : String
  pub balance : ℤ
  pub currency : String
  pub is_primary : Bool

-- The `type` of a transaction, with the direction that a transfer keeps in its metadata.
pub data Kind : Type 0 where
  deposit_entry withdrawal_entry debit_entry credit_entry payment_entry : Kind

-- A row of the `transactions` table.
pub record Entry : Type 0 where
  pub wallet_id : ℕ
  pub kind : Kind
  pub amount : ℤ
  pub currency : String

pub data AuditAction : Type 0 where
  deposit_action withdraw_action transfer_action credit_action : AuditAction

-- The `userId` of an audit entry: that of the token, none for `''`, or that of a body or an event.
pub data Author : Type 0 where
  by_token : Option String → Author
  by_body : ℕ → Author

-- A row of the `audit_logs` table; the two balances stand in it without the rounding of `Number`.
pub record Audit : Type 0 where
  pub action : AuditAction
  pub author : Author
  pub entity_id : ℕ
  pub before : ℤ
  pub after : ℤ

-- The tables; entries and audits have the newest first, `processed` holds the payment ids of the
-- keys in `processed_events`.
pub record State (W : Type 0) : Type 0 where
  pub wallets : W
  pub entries : List Entry
  pub audits : List Audit
  pub processed : List ℕ

-- The places where a handler calls the database.
pub data Site : Type 0 where
  at_find at_find_to at_find_primary at_create at_audit at_audit_to at_update at_update_to at_entry
        at_entry_to at_lock at_check :
      Site

-- The `code` of an error body; `prisma_code` is the code of an error of the database.
pub data Code : Type 0 where
  validation_error unsupported_currency invalid_transfer not_found insufficient_balance conflict :
      Code
  prisma_code internal_error : Code

pub data Thrown : Type 0 where
  -- An early return, or an error with a `statusCode` and a `code`.
  failed : ℕ → Code → Thrown
  -- A database call that throws.
  db : Thrown
  -- `throw new Error(...)` of `WalletService`.
  invalid_event : Thrown

-- What a request meets outside this code.
pub record Env : Type 0 where
  -- `parseFloat`, with none for `NaN`.
  pub parse_float : String → Option ℤ
  pub has_fault : Site → Bool
  -- `validationResult(req).isEmpty()`
  pub is_valid : Bool
  -- `getSupportedCurrencies()`
  pub supported : List String
  -- `toUpperCase`
  pub upper : String → String
  -- `req.userId`, which `authenticate` writes.
  pub user_id : Option String
  -- `Number(balance) < amount`, a test of doubles.
  pub number_less : ℤ → ℤ → Bool

pub data Reply : Type 0 where
  success : ℕ → Reply
  failure : ℕ → Code → Reply

-- `error as { statusCode?, code? }` in the `catch` clauses: 500 and the code of the error.
abbrev pub catch_error : Thrown → Reply
catch_error (failed n c) = failure n c
catch_error db = failure 500 prisma_code
catch_error invalid_event = failure 500 internal_error

module _ (T : Table Wallet) where
  open T use {Rows, find, update, create}

  abbrev pub Act : Type 0 → Type 0
  Act A = Action (State Rows) Thrown A

  -- A call of the database throws if it meets a fault.
  abbrev pub attempt : Env → Site → Act (Unit {0})
  attempt env site = throw_if (env.has_fault site) db

  abbrev pub find_wallet : Env → Site → ℕ → Act (Option Wallet)
  find_wallet env site id s = (attempt env site >> pure (find id s.wallets)) s

  -- `tx.wallet.update`
  abbrev pub update_wallet : Env → Site → ℕ → (Wallet → Wallet) → Act Wallet
  update_wallet env site id change s =
      (do
        attempt env site
        w ← or_throw (find id s.wallets) db
        modify (λ (t : State Rows). record t { wallets = update id change t.wallets })
        pure (change w))
        s

  -- `writeAuditLog`
  abbrev pub write_audit_log : Env → Site → Audit → Act (Unit {0})
  write_audit_log env site a = do
    attempt env site
    modify (λ (t : State Rows). record t { audits = a ∷ t.audits })

  -- `tx.transaction.create`
  abbrev pub create_entry : Env → Site → Entry → Act (Unit {0})
  create_entry env site e = do
    attempt env site
    modify (λ (t : State Rows). record t { entries = e ∷ t.entries })

  -- `{ balance: { increment: amount } }` and `{ balance: { decrement: amount } }`
  abbrev pub increment : ℤ → Wallet → Wallet
  increment amount w = record w { balance = w.balance +ℤ amount }

  abbrev pub decrement : ℤ → Wallet → Wallet
  decrement amount w = record w { balance = w.balance -ℤ amount }
