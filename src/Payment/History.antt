-- ===== src/Payment/History.antt =====
-- `getPaymentHistory` of tec-payment-service/src/controllers/payment.controller.ts, with the
-- validators of its route. `req.query` holds texts; here they are what they stand for, and times
-- are numbers. The two calls of the database run together; if both fail, the error is that of the
-- first here. Logging is left out.
mod Examples
use mathlib.Core.List
use tec_core_backend.Base.Lists.{take}
use tec_core_backend.Base.{
  ℕ, ◌-◌, ◌*◌, ◌≡◌, refl, sym, ap, Bool, true, false, not, ◌&&◌, Option, none, some, List, [], ◌∷◌,
  String, leb, ◌==◌, if◌then◌else◌,
}
use tec_core_backend.Base.Action.{◌>>=◌, ◌>>◌, pure, or_throw, throw_if, get, run_try}
use tec_core_backend.Base.Pages.{Pagination, pagination_of, total_pages, number_or}
use tec_core_backend.Base.Table.{Table}
use tec_core_backend.Base.Table.Listing.{Sort, asc, desc, Lists, Listing}
use tec_core_backend.Payment.Types.{
  Status, created, approved, completed, cancelled, failed, Method, pi, card, wallet, Payment, State,
  at_find, at_find_again, validation_error, unauthorized, Code, Reply, failure, Thrown, reply, Env,
}
use tec_core_backend.Payment.Calls.{catch_rest, Act, attempt}

-- The query, with none for a field that is missing.
pub record HistoryQuery : Type 0 where
  pub page : Option ℕ
  pub limit : Option ℕ
  pub status : Option Status
  pub payment_method : Option Method
  pub from : Option ℕ
  pub to : Option ℕ
  pub sort : Option Sort

-- The columns of `select`.
pub record HistoryRow : Type 0 where
  pub id : ℕ
  pub amount : ℕ
  pub currency : String
  pub payment_method : Method
  pub status : Status
  pub pi_payment_id : Option ℕ
  pub created_at : ℕ
  pub approved_at : Option ℕ
  pub completed_at : Option ℕ
  pub failed_at : Option ℕ
  pub cancelled_at : Option ℕ

pub data HistoryReply : Type 0 where
  listed : List HistoryRow → Pagination → HistoryReply
  refused : Reply → HistoryReply

-- The validators of `page` and `limit`, for numbers.
abbrev is_page : Option ℕ → Bool
is_page none = true
is_page (some n) = leb 1 n

abbrev pub is_limit : Option ℕ → Bool
is_limit none = true
is_limit (some n) = leb 1 n && leb n 100

-- The strings of the two columns, compared. The validators let no other status through.
abbrev pub has_status : Status → Status → Bool
has_status created created = true
has_status approved approved = true
has_status completed completed = true
has_status cancelled cancelled = true
has_status failed failed = true
has_status a b = false

abbrev has_method : Method → Method → Bool
has_method pi pi = true
has_method card card = true
has_method wallet wallet = true
has_method a b = false

-- A condition of the `where` clause, which is there if the query has the field.
abbrev if_given : {A : Type 0} → Option A → (A → Bool) → Bool
if_given none test = true
if_given (some a) test = test a

-- The `where` clause.
unfoldable pub is_wanted : ℕ → HistoryQuery → Payment → Bool
is_wanted user q p =
    p.user_id == user
    && if_given q.status (has_status p.status)
    && if_given q.payment_method (has_method p.method)
    && if_given q.from (λ t. leb t p.created_at)
    && if_given q.to (λ t. leb p.created_at t)

abbrev pub sort_of : HistoryQuery → Sort
sort_of q = elim q.sort [ none ↦ desc | some s ↦ s ]

abbrev pub row_of : ℕ × Payment → HistoryRow
row_of (id, p) = record {
  id = id;
  amount = p.amount;
  currency = p.currency;
  payment_method = p.method;
  status = p.status;
  pi_payment_id = p.pi_payment_id;
  created_at = p.created_at;
  approved_at = p.approved_at;
  completed_at = p.completed_at;
  failed_at = p.failed_at;
  cancelled_at = p.cancelled_at;
}

module _ (T : Table Payment) (L : Listing T Payment.created_at) where
  open T use {Rows}
  open L use {in_order, find_page, count, in_order-Lists, find_page_law, count_law}

  abbrev pub history_of : HistoryQuery → ℕ → ℕ → ℕ → Rows → HistoryReply
  history_of q user page limit t =
      listed
        (List.map row_of (find_page (is_wanted user q) (sort_of q) ((page - 1) * limit) limit t))
        (pagination_of page limit (count (is_wanted user q) t))

  -- `getPaymentHistory`
  unfoldable pub get_payment_history :
      Env Rows → HistoryQuery → State Rows → HistoryReply × State Rows
  unfolding is_wanted total_pages
  get_payment_history env q =
      run_try (λ (t : Thrown) s. (refused (catch_rest t), s))
        do
          throw_if (not (env.is_valid && is_page q.page && is_limit q.limit))
              (reply (failure 400 validation_error))
          user ← or_throw env.user (reply (failure 401 unauthorized))
          attempt T env at_find
          attempt T env at_find_again
          s ← get
          pure (history_of q user (number_or 1 q.page) (number_or 20 q.limit) s.payments)

  -- What a client makes of a reply: the payments, and whether another page follows.
  abbrev pub page_read : HistoryReply → Option (List HistoryRow × Bool)
  page_read (listed rows p) = some (rows, p.has_next)
  page_read (refused r) = none

  abbrev pub request_page :
      Env Rows → HistoryQuery → State Rows → ℕ → Option (List HistoryRow × Bool)
  request_page env q s page =
      page_read (get_payment_history env (record q { page = some page }) s).0

  module _ (env : Env Rows) (q : HistoryQuery) (s : State Rows) (user : ℕ)
      (valid : env.is_valid ≡ true) (limited : is_limit q.limit ≡ true)
      (signed : env.user ≡ some user) (no_fault : env.fault at_find ≡ none)
      (no_fault_again : env.fault at_find_again ≡ none) where
    abbrev all_listed : List (ℕ × Payment)
    all_listed = in_order (is_wanted user q) (sort_of q) s.payments
