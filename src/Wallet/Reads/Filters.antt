-- ===== src/Wallet/Reads/Filters.antt =====
-- What the filter by type of getWalletTransactions
-- (tec-wallet-service/src/controllers/wallet.controller.ts) cannot find.
use tec_core_backend.Base.Lists.{take-All, drop-All, take, drop}
use tec_core_backend.Base.{
  ℕ, ◌-◌, ◌*◌, ◌≡◌, true, false, some, List, [], ◌∷◌, String, arith, Bool-cases, inl, inr, All,
}
use tec_core_backend.Base.Pages.{number_or}
use tec_core_backend.Base.Text.{eq_iff, ◌===◌, is_one_of}
use tec_core_backend.Base.Table.{Table}
use tec_core_backend.Wallet.Types.{Wallet, payment_entry, Entry, State, Env}
use tec_core_backend.Wallet.Reads.{
  TransactionsQuery, ReadReply, transactions_reply, transaction_types, is_wanted, filter,
  get_wallet_transactions,
}

-- A reply that lists no credit of a payment.
abbrev pub HidesPayments : ReadReply → Type 0
HidesPayments (transactions_reply es p) = All (λ e. e.kind ≡ payment_entry → ⊥) es
HidesPayments r = Unit {0}

credit_unlisted : (t : String) → is_one_of t transaction_types ≡ true → ("CREDIT" === t) ≡ false
unfolding is_one_of
credit_unlisted t h = elim (Bool-cases ("CREDIT" === t)) [
  | inr other ↦ other
  | inl same ↦ let credit : "CREDIT" ≡ t = (eq_iff "CREDIT" t).0 same in cc (rw (← credit) at h)
]

wanted_no_payment :
    (id : ℕ) (q : TransactionsQuery) (t : String) (e : Entry)
    → q.type ≡ some t
    → is_one_of t transaction_types ≡ true
    → is_wanted id q e ≡ true
    → e.kind ≡ payment_entry
    → ⊥
unfolding is_wanted
wanted_no_payment id q t e typed among kept payment =
    ground (arith, credit_unlisted t among, typed, kept, payment)

filter-no_payment :
    (id : ℕ) (q : TransactionsQuery) (t : String) (es : List Entry)
    → q.type ≡ some t
    → is_one_of t transaction_types ≡ true
    → All (λ e. e.kind ≡ payment_entry → ⊥) (filter (is_wanted id q) es)
unfolding filter
filter-no_payment id q t [] typed among = tt
filter-no_payment id q t (e ∷ es) typed among = elim (Bool-cases (is_wanted id q e)) [
  | inl kept ↦
      rw kept (wanted_no_payment id q t e typed among kept, filter-no_payment id q t es typed among)
  | inr dropped ↦ rw dropped (filter-no_payment id q t es typed among)
]

module _ (T : Table Wallet) where
  open T use {Rows}

  -- Whatever page, limit, type and status a client asks for: as soon as he names a type, no reply
  -- of `getWalletTransactions` lists the credit of a payment, not even for the type `payment`.
  pub typed_query-HidesPayments :
      (env : Env) (id : ℕ) (q : TransactionsQuery) (t : String) (s : State Rows)
      → q.type ≡ some t
      → HidesPayments (get_wallet_transactions T env id q s).0
  unfolding get_wallet_transactions
  typed_query-HidesPayments env id q t s typed = elim (Bool-cases (is_one_of t transaction_types)) [
    | inl among ↦
        let skip : ℕ = (number_or 1 q.page - 1) * number_or 20 q.limit in
        let listed : All (λ (e : Entry). e.kind ≡ payment_entry → ⊥)
            (take (number_or 20 q.limit) (drop skip (filter (is_wanted id q) s.entries))) =
          take-All (λ (e : Entry). e.kind ≡ payment_entry → ⊥) (number_or 20 q.limit)
            (drop skip (filter (is_wanted id q) s.entries))
            (drop-All (λ (e : Entry). e.kind ≡ payment_entry → ⊥) skip
              (filter (is_wanted id q) s.entries)
              (filter-no_payment id q t s.entries typed among)) in
        ground (arith, typed)
    | inr other ↦ ground (arith, typed, other)
  ]
