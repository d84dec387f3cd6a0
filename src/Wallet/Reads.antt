-- ===== src/Wallet/Reads.antt =====
-- `getWallets`, `getWalletBalance` and `getWalletTransactions` of
-- tec-wallet-service/src/controllers/wallet.controller.ts. The entries of the ledger are kept with
-- the newest first, which is the order of the listing; every entry that the service writes has the
-- status `completed`. The columns of an entry that the other operations leave out are left out here,
-- and so is the order of `getWallets`.
pub mod Statement
pub mod Filters
mod Examples
use tec_core_backend.Base.Lists.{take, drop}
use tec_core_backend.Base.{
  ℕ, ◌-◌, ◌*◌, Bool, true, not, ◌&&◌, Option, none, some, List, [], ◌∷◌, String, leb, ◌==◌, length,
  if◌then◌else◌,
}
use tec_core_backend.Base.Text.{◌===◌, is_one_of}
use tec_core_backend.Base.Action.{◌>>=◌, ◌>>◌, pure, or_throw, throw_if, get, run_try}
use tec_core_backend.Base.Pages.{Pagination, pagination_of, number_or}
use tec_core_backend.Base.Int.{ℤ}
use tec_core_backend.Base.Table.{Table}
use tec_core_backend.Wallet.Types.{
  Wallet, Kind, deposit_entry, withdrawal_entry, debit_entry, credit_entry, payment_entry, Entry,
  State, at_find, at_check, at_entry, validation_error, not_found, internal_error, failed, Env,
  Reply, failure, Thrown, Act, attempt, find_wallet,
}

pub record TransactionsQuery : Type 0 where
  pub page : Option ℕ
  pub limit : Option ℕ
  pub type : Option String
  pub status : Option String

pub data ReadReply : Type 0 where
  wallets_reply : List (ℕ × Wallet) → ReadReply
  -- The columns of `select`: id, balance, currency, wallet_type.
  balance_reply : ℕ → ℤ → String → String → ReadReply
  transactions_reply : List Entry → Pagination → ReadReply
  refused : Reply → ReadReply

-- The `catch` clauses: an early return keeps its reply, and every other error is the same.
abbrev pub catch_read : Thrown → ReadReply
catch_read (failed n c) = refused (failure n c)
catch_read t = refused (failure 500 internal_error)

-- The `type` column of what the service writes.
abbrev pub type_of : Kind → String
type_of deposit_entry = "deposit"
type_of withdrawal_entry = "withdrawal"
type_of debit_entry = "transfer"
type_of credit_entry = "transfer"
type_of payment_entry = "CREDIT"

abbrev if_text : Option String → String → Bool
if_text none column = true
if_text (some t) column = column === t

abbrev is_any_of : List String → Option String → Bool
is_any_of ts none = true
is_any_of ts (some t) = is_one_of t ts

abbrev is_between : ℕ → Option ℕ → ℕ → Bool
is_between low none high = true
is_between low (some n) high = leb low n && leb n high

abbrev pub transaction_types : List String
transaction_types = "deposit" ∷ "withdrawal" ∷ "transfer" ∷ "payment" ∷ []

-- The validators of the route, for numbers.
abbrev pub is_query : TransactionsQuery → Bool
is_query q =
    elim q.page [ none ↦ true | some n ↦ leb 1 n ]
    && is_between 1 q.limit 100
    && is_any_of transaction_types q.type
    && is_any_of ("pending" ∷ "completed" ∷ "failed" ∷ []) q.status

-- The `where` clause.
unfoldable pub is_wanted : ℕ → TransactionsQuery → Entry → Bool
is_wanted id q e =
    e.wallet_id == id && if_text q.type (type_of e.kind) && if_text q.status "completed"

unfoldable pub filter : (Entry → Bool) → List Entry → List Entry
filter p [] = []
filter p (e ∷ es) = let rest = filter p es in if p e then e ∷ rest else rest

abbrev pub transactions_of : ℕ → TransactionsQuery → ℕ → ℕ → List Entry → ReadReply
transactions_of id q page limit es =
    transactions_reply (take limit (drop ((page - 1) * limit) (filter (is_wanted id q) es)))
      (pagination_of page limit (length (filter (is_wanted id q) es)))

module _ (T : Table Wallet) where
  open T use {Rows, find_many}

  -- `getWallets`
  unfoldable pub get_wallets : Env → ℕ → State Rows → ReadReply × State Rows
  get_wallets env user =
      run_try (λ (t : Thrown) s. (catch_read t, s))
        do
          throw_if (not env.is_valid) (failed 400 validation_error)
          attempt T env at_find
          s ← get
          pure (wallets_reply (find_many (λ w. w.user_id == user) s.wallets))

  -- `getWalletBalance`
  unfoldable pub get_wallet_balance : Env → ℕ → State Rows → ReadReply × State Rows
  get_wallet_balance env id =
      run_try (λ (t : Thrown) s. (catch_read t, s))
        do
          throw_if (not env.is_valid) (failed 400 validation_error)
          w ← or_throw (← find_wallet T env at_find id) (failed 404 not_found)
          pure (balance_reply id w.balance w.currency w.wallet_type)

  -- `getWalletTransactions`
  unfoldable pub get_wallet_transactions :
      Env → ℕ → TransactionsQuery → State Rows → ReadReply × State Rows
  unfolding is_wanted filter is_one_of take drop
  get_wallet_transactions env id q =
      run_try (λ (t : Thrown) s. (catch_read t, s))
        do
          throw_if (not (env.is_valid && is_query q)) (failed 400 validation_error)
          attempt T env at_check
          attempt T env at_entry
          s ← get
          pure (transactions_of id q (number_or 1 q.page) (number_or 20 q.limit) s.entries)

  -- What a client makes of a reply: the entries, and whether another page follows.
  abbrev pub page_read : ReadReply → Option (List Entry × Bool)
  page_read (transactions_reply es p) = some (es, p.has_next)
  page_read r = none

  abbrev pub request_page :
      Env → ℕ → TransactionsQuery → State Rows → ℕ → Option (List Entry × Bool)
  request_page env id q s page =
      page_read (get_wallet_transactions env id (record q { page = some page }) s).0
