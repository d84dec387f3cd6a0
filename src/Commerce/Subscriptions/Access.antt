-- ===== src/Commerce/Subscriptions/Access.antt =====
-- Who has access to a feature, after any requests to
-- tec-commerce-service/src/modules/subscription/subscription.service.ts.
use mathlib.Core.List.{Memᴰ}
use text.Mathlib.Text.{find?}
use tec_core_backend.Base.{
  ℕ, Bool, true, false, not, ◌||◌, Option, none, some, List, [], ◌∷◌, String, ◌==◌, ◌≡◌, refl, ap,
  sym, ◌∙◌, ltb, if◌then◌else◌, All, ◌↔◌, inl, inr, is_some, Bool-cases, arith,
}
use tec_core_backend.Base.Action.{Result, ok, err}
use tec_core_backend.Base.Table.Keyed.{Keyed}
use tec_core_backend.Commerce.Subscriptions.{
  SubscriptionPlan, free, pro, enterprise, active, Thrown, Subscription, SubscriptionHistory, State,
  conflict, Env, is_free, is_same_plan, SubscribeDto, plans, paid_subscription, includes_feature,
  get_subscription, subscribe, cancel, has_access, at_find,
}

pub data Request : Type 0 where
  status_request : Env → ℕ → Request
  subscribe_request : Env → SubscribeDto → Request
  cancel_request : Env → ℕ → Option String → Request
  access_request : Env → ℕ → String → Request

-- The last entry of a user.
unfoldable pub latest : ℕ → List SubscriptionHistory → Option SubscriptionHistory
latest user [] = none
latest user (h ∷ hs) = if user == h.user then some h else latest user hs

-- The entry tells the plan and the status of the row.
abbrev pub IsTold : Option Subscription → Option SubscriptionHistory → Type 0
IsTold none none = Unit {0}
IsTold (some r) (some h) = (h.plan ≡ r.plan) × (h.status ≡ r.status)
IsTold r h = ⊥

-- A request that does not cancel the subscription of the user or change its plan.
abbrev pub IsLeft : ℕ → SubscriptionPlan → Request → Type 0
IsLeft u p (subscribe_request env dto) = (not (u == dto.user_id) || is_same_plan p dto.plan) ≡ true
IsLeft u p (cancel_request env user reason) = (u == user) ≡ false
IsLeft u p q = Unit {0}

-- The text asked for occurs in a feature of the plan, both in lower case.
abbrev pub Offers : Env → String → List String → Type 0
Offers later feature fs =
    (f : String) × Memᴰ f fs
    × (is_some (find? (later.to_lower_case f) (later.to_lower_case feature)) ≡ true)

-- Access exactly to what the plan offers, and exactly until 30 days have gone.
abbrev pub IsGranted : Env → SubscribeDto → Env → String → Result Thrown Bool → Type 0
IsGranted env dto later feature (ok b) = (b ≡ true) ↔ (
    (ltb (env.add_days env.now 30) later.now ≡ false)
    × Offers later feature (plans dto.plan).features)
IsGranted env dto later feature (err e) = ⊥

paid_days : (p : SubscriptionPlan) → is_free p ≡ false → (plans p).duration ≡ 30
paid_days free paid = ground (arith, paid)
paid_days pro paid = refl
paid_days enterprise paid = refl

includes-Offers :
    (later : Env) (feature : String) (fs : List String)
    → includes_feature later feature fs ≡ true
    → Offers later feature fs
unfolding includes_feature
includes-Offers later feature [] h = ground (arith, h)
includes-Offers later feature (f ∷ fs) h =
    elim (Bool-cases (is_some (find? (later.to_lower_case f) (later.to_lower_case feature)))) [
      | inl here ↦ (f, Memᴰ.head refl, here)
      | inr off ↦
          let (g, there, found) = includes-Offers later feature fs (ground (arith, h, off)) in
          (g, Memᴰ.tail there, found)
    ]

Offers-includes :
    (later : Env) (feature f : String) (fs : List String)
    → Memᴰ f fs
    → is_some (find? (later.to_lower_case f) (later.to_lower_case feature)) ≡ true
    → includes_feature later feature fs ≡ true
unfolding includes_feature
Offers-includes later feature f [] there found = elim there [ ]
Offers-includes later feature f (g ∷ gs) (Memᴰ.head same) found = rw (sym same, found) refl
Offers-includes later feature f (g ∷ gs) (Memᴰ.tail there) found =
    ground (arith, Offers-includes later feature f gs there found)

abbrev granted : Env → SubscribeDto → Env → String → Bool
granted env dto later feature =
    if ltb (env.add_days env.now 30) later.now
    then false
    else includes_feature later feature (plans dto.plan).features

granted-IsGranted :
    (env later : Env) (dto : SubscribeDto) (feature : String)
    → IsGranted env dto later feature (ok (granted env dto later feature))
granted-IsGranted env later dto feature =
    elim (Bool-cases (ltb (env.add_days env.now 30) later.now)) [
      | inl over ↦ rw over (λ h. ground (arith, h), λ h. ground (arith, h))
      | inr still ↦ rw still (
        λ h. (refl, includes-Offers later feature (plans dto.plan).features h),
        λ h. Offers-includes later feature h.1.0 (plans dto.plan).features h.1.1 h.1.2,
      )
    ]

module _ (T : Keyed Subscription) where
  open T use {Rows, find, put, find-put}

  unfoldable pub run_request : Request → State Rows → State Rows
  run_request (status_request env user) s = (get_subscription T env user s).1
  run_request (subscribe_request env dto) s = (subscribe T env dto s).1
  run_request (cancel_request env user reason) s = (cancel T env user reason s).1
  run_request (access_request env user feature) s = (has_access T env user feature s).1

  unfoldable pub run_requests : List Request → State Rows → State Rows
  run_requests [] s = s
  run_requests (q ∷ qs) s = run_requests qs (run_request q s)

  request-IsTold :
      (q : Request) (u : ℕ) (s : State Rows)
      → IsTold (find u s.subscriptions) (latest u s.history)
      → IsTold (find u (run_request q s).subscriptions) (latest u (run_request q s).history)
  unfolding run_request get_subscription subscribe cancel has_access latest
  request-IsTold (status_request env user) u s h = grind (arith, find-put u user)
  request-IsTold (subscribe_request env dto) u s h = grind (arith, find-put u dto.user_id)
  request-IsTold (cancel_request env user reason) u s h = grind (arith, find-put u user)
  request-IsTold (access_request env user feature) u s h = grind (arith, find-put u user)

  -- After any requests, whatever database calls fail, the last entry of the history of a user tells
  -- the plan and the status of the user's row, and there is one exactly if there is a row, where
  -- that was so before.
  pub run_requests-IsTold :
      (qs : List Request) (u : ℕ) (s : State Rows)
      → IsTold (find u s.subscriptions) (latest u s.history)
      → IsTold (find u (run_requests qs s).subscriptions) (latest u (run_requests qs s).history)
  unfolding run_requests
  run_requests-IsTold [] u s h = h
  run_requests-IsTold (q ∷ qs) u s h =
      run_requests-IsTold qs u (run_request q s) (request-IsTold q u s h)

  request-row :
      (q : Request) (u : ℕ) (r : Subscription) (s : State Rows)
      → r.status ≡ active
      → IsLeft u r.plan q
      → find u s.subscriptions ≡ some r
      → find u (run_request q s).subscriptions ≡ some r
  unfolding run_request get_subscription subscribe cancel has_access
  request-row (status_request env user) u r s live left here = grind (arith, find-put u user)
  request-row (subscribe_request env dto) u r s live left here =
      grind (arith, find-put u dto.user_id)
  request-row (cancel_request env user reason) u r s live left here = grind (arith, find-put u user)
  request-row (access_request env user feature) u r s live left here =
      grind (arith, find-put u user)

  run-row :
      (qs : List Request) (u : ℕ) (r : Subscription) (s : State Rows)
      → r.status ≡ active
      → All (IsLeft u r.plan) qs
      → find u s.subscriptions ≡ some r
      → find u (run_requests qs s).subscriptions ≡ some r
  unfolding run_requests
  run-row [] u r s live left here = here
  run-row (q ∷ qs) u r s live (left, lefts) here =
      run-row qs u r (run_request q s) live lefts (request-row q u r s live left here)

  subscribe-row :
      (env : Env) (dto : SubscribeDto) (s : State Rows) (r : Subscription)
      → (subscribe T env dto s).0 ≡ ok r
      → (r ≡ paid_subscription env dto (find dto.user_id s.subscriptions))
        × (is_free dto.plan ≡ false)
        × (find dto.user_id (subscribe T env dto s).1.subscriptions ≡ some r)
  unfolding subscribe
  subscribe-row env dto s r e = grind (arith, find-put dto.user_id dto.user_id)

  has_access-row :
      (env later : Env) (dto : SubscribeDto) (feature : String) (r : Subscription) (s : State Rows)
      → find dto.user_id s.subscriptions ≡ some r
      → later.has_fault at_find ≡ false
      → r.status ≡ active
      → r.plan ≡ dto.plan
      → r.current_period_end ≡ some (env.add_days env.now 30)
      → (has_access T later dto.user_id feature s).0 ≡ ok (granted env dto later feature)
  unfolding has_access get_subscription
  has_access-row env later dto feature r s here works live same until = cc

  subscribe-again :
      (env : Env) (dto : SubscribeDto) (r : Subscription) (s : State Rows)
      → find dto.user_id s.subscriptions ≡ some r
      → is_free dto.plan ≡ false
      → r.plan ≡ dto.plan
      → r.status ≡ active
      → env.has_fault at_find ≡ false
      → subscribe T env dto s ≡ (err conflict, s)
  unfolding subscribe
  subscribe-again env dto r s here paid same live works = grind arith

  -- After a subscription that succeeds, whatever its payment ids are and if they are missing, and any
  -- requests that neither cancel it nor change the user's plan: where the row can be read, the user
  -- has access to exactly the texts that occur in a feature of the plan, in lower case, until 30
  -- days have gone, and to none afterwards. All that time, also after the end, the user cannot
  -- subscribe to the plan again.
  pub subscribed_until :
      (env later : Env) (dto : SubscribeDto) (payment pi_payment : Option ℕ) (feature : String)
      (r : Subscription) (s : State Rows) (qs : List Request)
      → (subscribe T env dto s).0 ≡ ok r
      → All (IsLeft dto.user_id dto.plan) qs
      → later.has_fault at_find ≡ false
      → IsGranted env dto later feature
          (has_access T later dto.user_id feature (run_requests qs (subscribe T env dto s).1)).0
        × (subscribe T later
              (record dto { payment_id = payment; pi_payment_id = pi_payment })
              (run_requests qs (subscribe T env dto s).1)
            ≡ (err conflict, run_requests qs (subscribe T env dto s).1))
  subscribed_until env later dto payment pi_payment feature r s qs e left works =
      let (same, paid, here) = subscribe-row env dto s r e in
      let written : Subscription = paid_subscription env dto (find dto.user_id s.subscriptions) in
      let row : find dto.user_id (run_requests qs (subscribe T env dto s).1).subscriptions
          ≡ some written =
        run-row qs dto.user_id written (subscribe T env dto s).1 refl left (here ∙ ap some same) in
      (
        rw
            (has_access-row env later dto feature written
              (run_requests qs (subscribe T env dto s).1) row works refl refl
              (ap (λ n. some (env.add_days env.now n)) (paid_days dto.plan paid)))
            (granted-IsGranted env later dto feature),
        subscribe-again later (record dto { payment_id = payment; pi_payment_id = pi_payment })
            written (run_requests qs (subscribe T env dto s).1) row paid refl refl works,
      )
