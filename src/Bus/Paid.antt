-- ===== src/Bus/Paid.antt =====
-- That payments get credited: the stream `payment.completed` of shared/src/event-bus/index.ts and the
-- handler of tec-wallet-service/src/wallet-event-consumer.ts, where nothing fails.
use tec_core_backend.Base.{
  ℕ, ◌*◌, ◌≤◌, Bool, true, false, not, ◌&&◌, ◌||◌, Option, some, List, [], ◌∷◌, ◌≡◌, refl, is_some,
  length, Bool-cases, Option-cases, inl, inr, arith,
}
use tec_core_backend.Base.Action.{Result, ok, err}
use tec_core_backend.Base.Ids.{is_in}
use tec_core_backend.Base.Int.{pos, ℤ, leb_ℤ}
use tec_core_backend.Base.Table.{Table}
use tec_core_backend.Bus.{StreamGroup, Attempt, started, batch_size, pending_count, run}
use tec_core_backend.Bus.Credit.{has_returned, handler, is_credited, wallet_marks}
use tec_core_backend.Bus.Delivery.{run-accounted}
use tec_core_backend.Bus.Drain.{turns, start_drains}
use tec_core_backend.Wallet.Types.{Wallet, State, Thrown, Env}
use tec_core_backend.Wallet.Credit.{PaymentCompletedEvent, is_processed, handle_payment_completed}
use tec_core_backend.Wallet.Ledger.Credits.{
  faultless, IsCredited, handle_payment_completed-IsCredited,
}

-- The event has a payment, a user and an amount above 0.
abbrev pub is_complete : PaymentCompletedEvent → Bool
is_complete event =
    is_some event.payment_id && (is_some event.user_id && not (leb_ℤ event.amount (pos 0)))

none_waits :
    (i : ℕ) (xs ys : List ℕ) (c : Bool)
    → xs ≡ []
    → ys ≡ []
    → (is_in i xs || (is_in i ys || c)) ≡ true
    → c ≡ true
unfolding is_in
none_waits i xs ys c a b h = ground (arith, a, b, h)

module _ (T : Table Wallet) where
  open T use {Rows}

  credited-has_returned :
      (j : ℕ) (amount : ℤ) (s : State Rows) (o : Result Thrown (Unit {0}) × State Rows)
      → IsCredited T j amount s o
      → has_returned o.0 ≡ true
  unfolding has_returned
  credited-has_returned j amount s (ok a, s') h = refl
  credited-has_returned j amount s (err e, s') h = absurd h

  processed-has_returned :
      (env : Env) (event : PaymentCompletedEvent) (p user : ℕ) (s : State Rows)
      → event.payment_id ≡ some p
      → event.user_id ≡ some user
      → leb_ℤ event.amount (pos 0) ≡ false
      → is_processed p s.processed ≡ true
      → has_returned (handle_payment_completed T (faultless env) event s).0 ≡ true
  unfolding has_returned handle_payment_completed
  processed-has_returned env event p user s a b c d = ground (arith, a, b, c, d)

  complete_returns :
      (env : Env) (event : PaymentCompletedEvent) (s : State Rows)
      → is_complete event ≡ true
      → (handler T (faultless env) event s).0 ≡ true
  unfolding handler
  complete_returns env event s h = elim (Option-cases event.payment_id) [
    | inl e ↦ absurd (ground (arith, e, h))
    | inr (p, a) ↦ elim (Option-cases event.user_id) [
      | inl e ↦ absurd (ground (arith, e, h))
      | inr (user, b) ↦
          let positive : leb_ℤ event.amount (pos 0) ≡ false = ground (arith, h) in
          elim (Bool-cases (is_processed p s.processed)) [
            | inl old ↦ processed-has_returned env event p user s a b positive old
            | inr new ↦
                credited-has_returned 0 event.amount s
                  (handle_payment_completed T (faultless env) event s)
                  (handle_payment_completed-IsCredited T env event p user 0 s a b positive new)
          ]
    ]
  ]

  module _ (R : StreamGroup) (data_of : ℕ → Option PaymentCompletedEvent) where
    open R use {Group, unread, pending}

    -- No call of the database fails, and each acknowledgement works.
    abbrev pub all_well : (ℕ → Env) → ℕ → Attempt Env
    all_well env i = record { env = faultless (env i); has_ack = true }

    -- Where nothing fails, every payment is credited: with complete events only, and at most as many
    -- entries pending as one read gives, a start of the consumer and as many turns as the unread
    -- entries fill credit the payment of each entry that was unread or pending.
    pub every_payment_credited :
        (env : ℕ → Env) (event : ℕ → PaymentCompletedEvent) (n i : ℕ) (w : Group × State Rows)
        → ((j : ℕ) → data_of j ≡ some (event j))
        → ((j : ℕ) → is_complete (event j) ≡ true)
        → length (pending w.0) ≤ pending_count
        → length (unread w.0) ≤ n * batch_size
        → (is_in i (unread w.0) || is_in i (pending w.0)) ≡ true
        → is_credited T
            (event i)
            (run R data_of
              (handler T)
              (started (all_well env) pending_count ∷ turns (all_well env) n)
              w).1
          ≡ true
    unfolding is_in
    every_payment_credited env event n i w there complete few little waits =
        let steps = started (all_well env) pending_count ∷ turns (all_well env) n in
        let drained =
          start_drains R data_of (handler T) (all_well env) (λ j. refl) event there
            (λ j s. complete_returns (env j) (event j) s (complete j)) n w few little in
        let kept =
          run-accounted R data_of (handler T) (wallet_marks T) steps i (event i) w (there i)
            (ground (arith, waits)) in
        none_waits i _ _ _ drained.0 drained.1 kept
