-- ===== src/Commerce/Subscriptions.antt =====
-- The subscriptions of tec-commerce-service/src/modules/subscription/subscription.service.ts. The rows
-- are found by their user; the history has the newest entry first. The endpoints pass on the user of
-- a verified token.
use text.Mathlib.Text.{find?}
use tec_core_backend.Base.{
  ℕ, Bool, true, false, ◌&&◌, ◌||◌, Option, none, some, List, [], ◌∷◌, String, is_some, ltb,
  if◌then◌else◌,
}
use tec_core_backend.Base.Action.{
  Result, ok, err, Action, ◌>>=◌, ◌>>◌, pure, or_throw, throw_if, modify,
}
use tec_core_backend.Base.Table.Keyed.{Keyed}
pub mod Access
mod Examples

pub data SubscriptionPlan : Type 0 where
  free pro enterprise : SubscriptionPlan

-- The service writes the first two.
pub data SubscriptionStatus : Type 0 where
  active cancelled expired past_due : SubscriptionStatus

pub record PlanDetails : Type 0 where
  pub price : ℕ
  -- In days.
  pub duration : ℕ
  pub features : List String

-- `PLANS`
abbrev pub plans : SubscriptionPlan → PlanDetails
plans free = record {
  price = 0;
  duration = 0;
  features = "Up to 5 assets" ∷ "Basic wallet" ∷ "Community access" ∷ [];
}
plans pro = record {
  price = 10;
  duration = 30;
  features =
      "Unlimited assets" ∷ "Advanced wallet" ∷ "Priority support" ∷ "Analytics dashboard"
      ∷ "Commerce store" ∷ [];
}
plans enterprise = record {
  price = 50;
  duration = 30;
  features =
      "Everything in Pro" ∷ "Custom domain" ∷ "API access" ∷ "Dedicated support"
      ∷ "White-label options" ∷ "Advanced analytics" ∷ [];
}

pub record Subscription : Type 0 where
  pub plan : SubscriptionPlan
  pub status : SubscriptionStatus
  pub payment_id : Option ℕ
  pub pi_payment_id : Option ℕ
  pub current_period_start : ℕ
  pub current_period_end : Option ℕ
  pub cancelled_at : Option ℕ
  pub cancel_reason : Option String

pub data Note : Type 0 where
  default_note : Note
  subscribed_note upgraded_note : SubscriptionPlan → Note
  cancelled_note : Option String → Note

pub record SubscriptionHistory : Type 0 where
  pub user : ℕ
  pub plan : SubscriptionPlan
  pub status : SubscriptionStatus
  pub payment_id : Option ℕ
  pub note : Note

pub record State (K : Type 0) : Type 0 where
  pub subscriptions : K
  pub history : List SubscriptionHistory

pub data Site : Type 0 where
  at_find at_create at_upsert at_update : Site

pub data Thrown : Type 0 where
  bad_request not_found conflict db : Thrown

-- What a request meets: the clock, the calendar (`setDate` in the time zone of the server), the
-- database calls that throw, and `toLowerCase`.
pub record Env : Type 0 where
  pub now : ℕ
  pub add_days : ℕ → ℕ → ℕ
  pub has_fault : Site → Bool
  pub to_lower_case : String → String

abbrev pub is_free : SubscriptionPlan → Bool
is_free free = true
is_free p = false

abbrev pub is_active : SubscriptionStatus → Bool
is_active active = true
is_active s = false

abbrev pub is_cancelled : SubscriptionStatus → Bool
is_cancelled cancelled = true
is_cancelled s = false

abbrev pub is_same_plan : SubscriptionPlan → SubscriptionPlan → Bool
is_same_plan free free = true
is_same_plan pro pro = true
is_same_plan enterprise enterprise = true
is_same_plan p q = false

-- The test of `subscribe`: the user has this plan, and it is active.
abbrev pub is_subscribed : SubscriptionPlan → Option Subscription → Bool
is_subscribed p none = false
is_subscribed p (some r) = is_same_plan r.plan p && is_active r.status

-- `isExpired`
abbrev pub is_expired : ℕ → Subscription → Bool
is_expired now r = elim r.current_period_end [ none ↦ false | some end ↦ ltb end now ]

abbrev pub free_subscription : ℕ → Subscription
free_subscription now = record {
  plan = free;
  status = active;
  payment_id = none;
  pi_payment_id = none;
  current_period_start = now;
  current_period_end = none;
  cancelled_at = none;
  cancel_reason = none;
}

pub record SubscribeDto : Type 0 where
  pub user_id : ℕ
  pub plan : SubscriptionPlan
  pub payment_id : Option ℕ
  pub pi_payment_id : Option ℕ

-- An `undefined` field of an update leaves what the row has.
abbrev id_or_kept : Option ℕ → Option ℕ → Option ℕ
id_or_kept (some id) old = some id
id_or_kept none old = old

-- The row that `upsert` leaves, where there was the given one, if any.
abbrev pub paid_subscription : Env → SubscribeDto → Option Subscription → Subscription
paid_subscription env dto old = record {
  plan = dto.plan;
  status = active;
  payment_id = id_or_kept dto.payment_id (elim old [ none ↦ none | some r ↦ r.payment_id ]);
  pi_payment_id =
      id_or_kept dto.pi_payment_id (elim old [ none ↦ none | some r ↦ r.pi_payment_id ]);
  current_period_start = env.now;
  current_period_end = some (env.add_days env.now (plans dto.plan).duration);
  cancelled_at = none;
  cancel_reason = none;
}

abbrev pub cancelled_subscription : ℕ → Option String → Subscription → Subscription
cancelled_subscription now reason r = record r {
  status = cancelled;
  cancelled_at = some now;
  cancel_reason = reason;
}

-- `f.toLowerCase().includes(feature.toLowerCase())`, for some feature of the list.
unfoldable pub includes_feature : Env → String → List String → Bool
includes_feature env feature [] = false
includes_feature env feature (f ∷ fs) =
    is_some (find? (env.to_lower_case f) (env.to_lower_case feature))
    || includes_feature env feature fs

module _ (T : Keyed Subscription) where
  open T use {Rows, find, put}

  abbrev pub Act : Type 0 → Type 0
  Act A = Action (State Rows) Thrown A

  abbrev attempt : Env → Site → Act (Unit {0})
  attempt env site = throw_if (env.has_fault site) db

  -- A row with its entry of the history, which one call of the database writes.
  abbrev write : ℕ → Subscription → Option ℕ → Note → Act (Unit {0})
  write user r payment note = modify (λ (s : State Rows). record {
    subscriptions = put user r s.subscriptions;
    history =
        (record {
          user = user;
          plan = r.plan;
          status = r.status;
          payment_id = payment;
          note = note;
        })
        ∷ s.history;
  })

  -- `subscription.findUnique`
  abbrev find_subscription : Env → ℕ → Act (Option Subscription)
  find_subscription env user s = (attempt env at_find >> pure (find user s.subscriptions)) s

  abbrev found_or_create : Env → ℕ → Option Subscription → Act Subscription
  found_or_create env user (some r) = pure r
  found_or_create env user none = do
    attempt env at_create
    write user (free_subscription env.now) none default_note
    pure (free_subscription env.now)

  -- `getSubscription`
  unfoldable pub get_subscription : Env → ℕ → Act Subscription
  get_subscription env user = do found ← find_subscription env user; found_or_create env user found

  -- `subscribe`
  unfoldable pub subscribe : Env → SubscribeDto → Act Subscription
  subscribe env dto = do
    throw_if (is_free dto.plan) bad_request
    existing ← find_subscription env dto.user_id
    throw_if (is_subscribed dto.plan existing) conflict
    attempt env at_upsert
    write dto.user_id (paid_subscription env dto existing) dto.payment_id
        (if is_some existing then upgraded_note dto.plan else subscribed_note dto.plan)
    pure (paid_subscription env dto existing)

  -- `cancel`
  unfoldable pub cancel : Env → ℕ → Option String → Act Subscription
  cancel env user reason = do
    r ← or_throw (← find_subscription env user) not_found
    throw_if (is_free r.plan) bad_request
    throw_if (is_cancelled r.status) conflict
    attempt env at_update
    write user (cancelled_subscription env.now reason r) none (cancelled_note reason)
    pure (cancelled_subscription env.now reason r)

  abbrev allows : Env → String → Subscription → Bool
  allows env feature r =
      is_active r.status
      && (if is_expired env.now r
          then false
          else includes_feature env feature (plans r.plan).features)

  -- `hasAccess`
  unfoldable pub has_access : Env → ℕ → String → Act Bool
  has_access env user feature = do r ← get_subscription env user; pure (allows env feature r)
