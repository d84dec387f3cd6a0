-- ===== src/Wallet/Reads/Statement.antt =====
-- What a client adds up from the transactions of tec-wallet-service is the balance that the service
-- shows him (src/controllers/wallet.controller.ts).
use tec_core_backend.Base.{
  ℕ, zero, suc, ◌*◌, ◌≤◌, ◌<◌, ◌≡◌, refl, ◌∙◌, true, false, Option, none, some, List, [], ◌∷◌,
  arith, ltb, length,
}
use tec_core_backend.Base.Pages.{lt-total_pages, page_of, read_on, read_on_all}
use tec_core_backend.Base.Int.{ℤ}
use tec_core_backend.Base.Table.{Table}
use tec_core_backend.Wallet.Types.{
  Wallet, Entry, State, at_find, Site, at_check, at_entry, not_found, Env, failure,
}
use tec_core_backend.Wallet.Ledger
use tec_core_backend.Wallet.Ledger.Accounts.{Request, run_requests, IsBooked, run_requests-IsBooked}
use tec_core_backend.Wallet.Reads.{
  TransactionsQuery, ReadReply, balance_reply, refused, is_wanted, filter, transactions_of,
  page_read, get_wallet_balance, get_wallet_transactions, request_page,
}

-- The query with no page, no limit and no filter.
abbrev pub whole : TransactionsQuery
whole = record { page = none; limit = none; type = none; status = none }

net-filter :
    (id : ℕ) (es : List Entry) → Ledger.net id (filter (is_wanted id whole) es) ≡ Ledger.net id es
unfolding Ledger.net filter is_wanted
net-filter id [] = refl
net-filter id (e ∷ es) = ground (arith, net-filter id es)

length-filter : (id : ℕ) (es : List Entry) → length (filter (is_wanted id whole) es) ≤ length es
unfolding filter
length-filter id [] = omega arith
length-filter id (e ∷ es) = ground (arith, length-filter id es)

-- The reply shows the balance, or there is no wallet and the balance is 0.
abbrev pub Shows : ℤ → Option Wallet → ReadReply → Type 0
Shows b (some w) (balance_reply id balance currency kind) = balance ≡ b
Shows b none (refused r) = r ≡ failure 404 not_found
Shows b o r = ⊥

module _ (T : Table Wallet) (env : Env) (id : ℕ) (valid : env.is_valid ≡ true)
    (no_fault : (x : Site) → env.has_fault x ≡ false) where
  open T use {Rows, find}

  reply_of_page :
      (s : State Rows) (p : ℕ)
      → request_page T env id whole s (suc p)
        ≡ page_read T (transactions_of id whole (suc p) 20 s.entries)
  unfolding get_wallet_transactions
  reply_of_page s p = ground (arith, no_fault at_check, no_fault at_entry)

  request_page-IsPaged :
      (s : State Rows) (page : ℕ)
      → 1 ≤ page
      → request_page T env id whole s page
        ≡ some (
          page_of page 20 (filter (is_wanted id whole) s.entries),
          ltb (page * 20) (length (filter (is_wanted id whole) s.entries)),
        )
  unfolding page_of
  request_page-IsPaged s zero h = absurd (omega arith)
  request_page-IsPaged s (suc p) h =
      reply_of_page s p
      ∙ rw
          (lt-total_pages (suc p) (length (filter (is_wanted id whole) s.entries)) 20 (omega arith))

  balance_shown :
      (s : State Rows)
      → Shows
          (Ledger.balance_of (find id s.wallets))
          (find id s.wallets)
          (get_wallet_balance T env id s).0
  unfolding get_wallet_balance
  balance_shown s = ground (arith, no_fault at_find)

  -- After any sequence of operations on a service whose balances agree with its ledger, with any
  -- inputs and whatever database calls failed: a client who reads the transactions of a wallet page
  -- by page, with no filter and for as long as the reply says that another page follows, ends, and
  -- what he has read comes to the balance that `getWalletBalance` shows, if the database answers
  -- these calls (a wallet that is not there has no balance, and the entries come to 0).
  pub statement-balance :
      (qs : List Request) (s : State Rows) (fuel : ℕ)
      → IsBooked T id s
      → length (run_requests T qs s).entries < fuel
      → (es : List Entry) × (read_on (request_page T env id whole (run_requests T qs s)) fuel 1
          ≡ some es)
        × Shows
            (Ledger.net id es)
            (find id (run_requests T qs s).wallets)
            (get_wallet_balance T env id (run_requests T qs s)).0
        × (Ledger.net id es ≡ Ledger.balance_of (find id (run_requests T qs s).wallets))
  statement-balance qs s fuel booked enough =
      let after : State Rows = run_requests T qs s in
      let same : Ledger.net id (filter (is_wanted id whole) after.entries)
          ≡ Ledger.balance_of (find id after.wallets) =
        net-filter id after.entries ∙ run_requests-IsBooked T qs id s booked in
      (
        filter (is_wanted id whole) after.entries,
        read_on_all (request_page T env id whole after) 20
            (filter (is_wanted id whole) after.entries) (request_page-IsPaged after) fuel
            (omega arith) (omega (arith, length-filter id after.entries)),
        rw same (balance_shown after),
        same,
      )
