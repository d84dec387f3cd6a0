-- ===== src/Commerce/Subscriptions/Examples.antt =====
-- Tests of the subscriptions of one user, and the theorems at those inputs.
use tec_core_backend.Base.{ℕ, ◌+◌, true, false, none, some, List, [], ◌∷◌, ◌≡◌, refl}
use tec_core_backend.Base.Action.{ok, err}
use tec_core_backend.Base.Table.Keyed.{Keyed, keyed_rows}
use tec_core_backend.Commerce.Subscriptions.{
  pro, Subscription, SubscribeDto, State, Env, conflict, paid_subscription, includes_feature,
  get_subscription, subscribe, cancel, has_access,
}
use tec_core_backend.Commerce.Subscriptions.Access.{
  Request, status_request, access_request, cancel_request, run_requests, IsGranted,
  subscribed_until,
}

abbrev table : Keyed Subscription
table = keyed_rows

abbrev start : State (Keyed.Rows table)
start = record { subscriptions = []; history = [] }

abbrev at_day : ℕ → Env
at_day n = record {
  now = n;
  add_days = λ day more. day + more;
  has_fault = λ site. false;
  to_lower_case = λ s. s;
}

abbrev unpaid : SubscribeDto
unpaid = record { user_id = 4; plan = pro; payment_id = none; pi_payment_id = none }

abbrev subscribed : State (Keyed.Rows table)
subscribed = (subscribe table (at_day 10) unpaid start).1

access_without_payment : (has_access table (at_day 40) 4 "Analytics" subscribed).0 ≡ ok true
unfolding get_subscription subscribe has_access includes_feature
access_without_payment = refl

no_access_after_cancelling :
    (has_access table (at_day 20) 4 "Analytics" (cancel table (at_day 15) 4 none subscribed).1).0
    ≡ ok false
unfolding get_subscription subscribe cancel has_access includes_feature
no_access_after_cancelling = refl

abbrev reads : List Request
reads =
    status_request (at_day 20) 4
    ∷ cancel_request (at_day 21) 5 none
    ∷ access_request (at_day 30) 4 "API"
    ∷ []

subscribed_until_example :
    IsGranted
      (at_day 10)
      unpaid
      (at_day 41)
      "Analytics"
      (has_access table (at_day 41) 4 "Analytics" (run_requests table reads subscribed)).0
    × (subscribe table
          (at_day 41)
          (record unpaid { payment_id = some 3; pi_payment_id = some 30 })
          (run_requests table reads subscribed)
        ≡ (err conflict, run_requests table reads subscribed))
unfolding subscribe
subscribed_until_example =
    subscribed_until table (at_day 10) (at_day 41) unpaid (some 3) (some 30) "Analytics"
      (paid_subscription (at_day 10) unpaid none) start reads refl (tt, (refl, (tt, tt))) refl
