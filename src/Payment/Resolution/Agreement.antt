-- ===== src/Payment/Resolution/Agreement.antt =====
-- After a resolution the local row agrees with the Pi Network.
use mathlib.Core.Option
use tec_core_backend.Base.{ℕ, ◌≡◌, ◌⊎◌, true, false, Option, some}
use tec_core_backend.Base.Action.{Result, ok, err}
use tec_core_backend.Base.Table.{Table}
use tec_core_backend.Payment.Types.{
  Status, completed, cancelled, Payment, State, Thrown, Reply, resolved, failure, completed_now,
  already_completed, cancelled_on_pi, no_action_needed, reply,
}
use tec_core_backend.Payment.Resolution.{PiPayment}

module _ (T : Table Payment) where
  open T use {Rows, find, find_first, update, find-update, find_first_sound}

  -- The state of the row.
  abbrev pub status_of : ℕ → Rows → Option Status
  status_of id t = Option.map (λ p. p.status) (find id t)

  -- What a reply says of the state on Pi, and what has become of the row with the key, where `now` is
  -- the table as other requests have left it.
  abbrev pub Agrees : PiPayment → ℕ → Rows → Rows → Rows → Reply → Type 0
  Agrees pi id before now after (resolved completed_now) =
      (pi.transaction_verified ≡ true)
      × (pi.developer_completed ≡ false)
      × (status_of id after ≡ some completed)
  Agrees pi id before now after (resolved already_completed) =
      (pi.developer_completed ≡ true) × (status_of id after ≡ some completed)
  Agrees pi id before now after (resolved cancelled_on_pi) =
      (pi.developer_completed ≡ false) × (status_of id after ≡ some cancelled)
  Agrees pi id before now after (resolved no_action_needed) =
      (pi.developer_completed ≡ false) × (pi.transaction_verified ≡ true) × (after ≡ before)
  Agrees pi id before now after (failure n c) = (after ≡ before) ⊎ (after ≡ now)
  Agrees pi id before now after r = ⊥

  abbrev Ended : PiPayment → ℕ → Rows → Rows → Result Thrown Reply × State Rows → Type 0
  Ended pi id before now (ok r, s') = Agrees pi id before now s'.payments r
  Ended pi id before now (err (reply r), s') = ⊥
  Ended pi id before now (err t, s') = (s'.payments ≡ before) ⊎ (s'.payments ≡ now)
