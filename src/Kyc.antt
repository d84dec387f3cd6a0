-- ===== src/Kyc.antt =====
-- The KYC service: tec-kyc-service/src/modules/kyc/kyc.service.ts. The records are found by their
-- user; ids and URLs are numbers, since they are only compared. Events are recorded in the state.
use tec_core_backend.Base.{
  ℕ, Bool, true, false, not, ◌&&◌, ◌||◌, Option, none, some, List, [], ◌∷◌, String, is_some,
  if◌then◌else◌,
}
use tec_core_backend.Base.Action.{
  Result, ok, err, Action, ◌>>=◌, ◌>>◌, pure, throw, or_throw, throw_if, modify, get,
}
use tec_core_backend.Base.Table.Keyed.{Keyed}
pub mod Requests
pub mod Uploads
pub mod Reviews
mod Examples

pub data KycStatus : Type 0 where
  not_started pending verified rejected : KycStatus

pub data KycLevel : Type 0 where
  l0 l1 l2 : KycLevel

-- A row of the table; the user is its key.
pub record Kyc : Type 0 where
  pub pi_user_id : Option ℕ
  pub username : Option ℕ
  pub status : KycStatus
  pub level : KycLevel
  pub id_front_url : Option ℕ
  pub id_back_url : Option ℕ
  pub selfie_url : Option ℕ
  pub submitted_at : Option ℕ
  pub verified_at : Option ℕ
  pub rejected_at : Option ℕ
  pub rejection_reason : Option String

pub data AuditAction : Type 0 where
  start_action upload_action submit_action verify_action reject_action : AuditAction

pub record KycAuditLog : Type 0 where
  pub user : ℕ
  pub action : AuditAction
  pub from_status : KycStatus
  pub to_status : KycStatus

-- The tables, and the users in the stream `kyc.verified`; logs and events have the newest first.
pub record State (K : Type 0) : Type 0 where
  pub records : K
  pub logs : List KycAuditLog
  pub events : List (ℕ × KycLevel)

pub data Site : Type 0 where
  at_find at_create at_update at_log : Site

pub data Thrown : Type 0 where
  bad_request not_found db : Thrown

-- What a request meets: the clock, the database calls that throw, and whether the event is added to
-- its stream (a failure of that is swallowed).
pub record Env : Type 0 where
  pub now : ℕ
  pub has_fault : Site → Bool
  pub has_stream : Bool

abbrev pub is_verified : KycStatus → Bool
is_verified verified = true
is_verified s = false

abbrev pub is_pending : KycStatus → Bool
is_pending pending = true
is_pending s = false

pub record Urls : Type 0 where
  pub id_front_url : Option ℕ
  pub id_back_url : Option ℕ
  pub selfie_url : Option ℕ

abbrev pub new_kyc : Option ℕ → Option ℕ → Kyc
new_kyc pi_user_id username = record {
  pi_user_id = pi_user_id;
  username = username;
  status = not_started;
  level = l0;
  id_front_url = none;
  id_back_url = none;
  selfie_url = none;
  submitted_at = none;
  verified_at = none;
  rejected_at = none;
  rejection_reason = none;
}

-- `...(url && { field: url })`
abbrev pub or_kept : Option ℕ → Option ℕ → Option ℕ
or_kept none old = old
or_kept (some url) old = some url

unfoldable pub with_documents : Urls → Kyc → Kyc
with_documents urls r = record r {
  id_front_url = or_kept urls.id_front_url r.id_front_url;
  id_back_url = or_kept urls.id_back_url r.id_back_url;
  selfie_url = or_kept urls.selfie_url r.selfie_url;
}

abbrev pub submitted : ℕ → Kyc → Kyc
submitted now r = record r { status = pending; submitted_at = some now }

abbrev pub verified_kyc : ℕ → KycLevel → Kyc → Kyc
verified_kyc now level r = record r {
  status = verified;
  level = level;
  verified_at = some now;
  rejection_reason = none;
}

abbrev pub rejected_kyc : ℕ → String → Kyc → Kyc
rejected_kyc now reason r = record r {
  status = rejected;
  rejection_reason = some reason;
  rejected_at = some now;
}

module _ (T : Keyed Kyc) where
  open T use {Rows, find, put}

  abbrev pub Act : Type 0 → Type 0
  Act A = Action (State Rows) Thrown A

  abbrev attempt : Env → Site → Act (Unit {0})
  attempt env site = throw_if (env.has_fault site) db

  abbrev write : ℕ → Kyc → Act (Unit {0})
  write user r = modify (λ (s : State Rows). record s { records = put user r s.records })

  -- `kyc.findUnique`
  abbrev find_kyc : Env → ℕ → Act (Option Kyc)
  find_kyc env user s = (attempt env at_find >> pure (find user s.records)) s

  -- `kyc.update`
  abbrev update_kyc : Env → ℕ → (Kyc → Kyc) → Act Kyc
  update_kyc env user change s =
      (do
        attempt env at_update
        r ← or_throw (find user s.records) db
        write user (change r)
        pure (change r))
        s

  abbrev create_kyc : Env → ℕ → Option ℕ → Option ℕ → Act Kyc
  create_kyc env user pi_user_id username = do
    attempt env at_create
    write user (new_kyc pi_user_id username)
    pure (new_kyc pi_user_id username)

  -- `createAuditLog`
  abbrev create_audit_log : Env → ℕ → AuditAction → KycStatus → KycStatus → Act (Unit {0})
  create_audit_log env user action from to = do
    attempt env at_log
    modify (λ (s : State Rows). record s {
      logs = (record { user = user; action = action; from_status = from; to_status = to }) ∷ s.logs;
    })

  abbrev existing_or : Option Kyc → Act Kyc → Act Kyc
  existing_or none m = m
  existing_or (some r) m = pure r

  -- `getOrCreate`
  unfoldable pub get_or_create : Env → ℕ → Option ℕ → Option ℕ → Act Kyc
  get_or_create env user pi_user_id username = do
    found ← find_kyc env user
    existing_or found (create_kyc env user pi_user_id username)

  -- `getStatus`
  unfoldable pub get_status : Env → ℕ → Act Kyc
  unfolding get_or_create
  get_status env user = do
    found ← find_kyc env user
    existing_or found (get_or_create env user none none)

  -- `startKyc`
  unfoldable pub start_kyc : Env → ℕ → Act Kyc
  unfolding get_or_create
  start_kyc env user = do
    r ← get_or_create env user none none
    throw_if (is_verified r.status) bad_request
    throw_if (is_pending r.status) bad_request
    q ← update_kyc env user (λ (x : Kyc). record x { status = not_started })
    create_audit_log env user start_action r.status not_started
    pure q

  -- `uploadDocuments`, after its `getOrCreate`
  unfoldable pub put_documents : Env → ℕ → Urls → Kyc → Act Kyc
  put_documents env user urls r = do
    throw_if (is_verified r.status) bad_request
    q ← update_kyc env user (with_documents urls)
    create_audit_log env user upload_action r.status r.status
    pure q

  -- `uploadDocuments`
  unfoldable pub upload_documents : Env → ℕ → Urls → Act Kyc
  upload_documents env user urls = get_or_create env user none none >>= put_documents env user urls

  -- `submitKyc`
  unfoldable pub submit_kyc : Env → ℕ → Act Kyc
  unfolding get_or_create
  submit_kyc env user = do
    r ← get_or_create env user none none
    throw_if (is_verified r.status) bad_request
    throw_if (is_pending r.status) bad_request
    throw_if (not (is_some r.id_front_url) || not (is_some r.selfie_url)) bad_request
    q ← update_kyc env user (submitted env.now)
    create_audit_log env user submit_action r.status pending
    pure q

  -- `emitKycVerified`, which throws nothing.
  abbrev emit_kyc_verified : Env → ℕ → KycLevel → Act (Unit {0})
  emit_kyc_verified env user level = modify (λ (s : State Rows).
      if env.has_stream then record s { events = (user, level) ∷ s.events } else s)

  -- `verifyKyc`
  unfoldable pub verify_kyc : Env → ℕ → KycLevel → Act Kyc
  verify_kyc env user level = do
    r ← or_throw (← find_kyc env user) not_found
    q ← update_kyc env user (verified_kyc env.now level)
    create_audit_log env user verify_action r.status verified
    emit_kyc_verified env user level
    pure q

  -- `rejectKyc`
  unfoldable pub reject_kyc : Env → ℕ → String → Act Kyc
  reject_kyc env user reason = do
    r ← or_throw (← find_kyc env user) not_found
    q ← update_kyc env user (rejected_kyc env.now reason)
    create_audit_log env user reject_action r.status rejected
    pure q
