-- ===== src/Kyc/Requests.antt =====
-- The endpoints of tec-kyc-service/src/modules/kyc/kyc.controller.ts. Requests run one after the other.
use tec_core_backend.Base.{ℕ, Bool, false, Option, none, some, List, [], ◌∷◌, String, ◌≡◌, arith}
use tec_core_backend.Base.Table.Keyed.{Keyed}
use tec_core_backend.Kyc.{
  Kyc, KycLevel, l1, State, Env, Urls, verified_kyc, get_or_create, start_kyc, upload_documents,
  submit_kyc, verify_kyc, reject_kyc,
}

-- What `decode` of the token gives: the user, with the names of Pi; none if it is no token. Its
-- signature is not verified.
pub record UserInfo : Type 0 where
  pub user_id : ℕ
  pub pi_user_id : ℕ
  pub username : ℕ

-- The endpoints; those of a user carry what `getUserInfo` gives, those of an administrator read no
-- header at all.
pub data Request : Type 0 where
  status_request : Env → Option UserInfo → Request
  start_request : Env → Option UserInfo → Request
  upload_request : Env → Option UserInfo → Urls → Request
  submit_request : Env → Option UserInfo → Request
  verify_request : Env → ℕ → Option KycLevel → Request
  reject_request : Env → ℕ → String → Request

-- `body.level ?? 'L1'`
abbrev pub level_or_l1 : Option KycLevel → KycLevel
level_or_l1 none = l1
level_or_l1 (some level) = level

module _ (T : Keyed Kyc) where
  open T use {Rows, find, put, find-put}

  -- A request without a token of a user is refused before the service is called.
  abbrev pub for_user :
      Option UserInfo → (UserInfo → State Rows → State Rows) → State Rows → State Rows
  for_user none f s = s
  for_user (some i) f s = f i s

  unfoldable pub run_request : Request → State Rows → State Rows
  run_request (status_request env info) s =
      for_user info
        (λ i t. (get_or_create T env i.user_id (some i.pi_user_id) (some i.username) t).1) s
  run_request (start_request env info) s = for_user info (λ i t. (start_kyc T env i.user_id t).1) s
  run_request (upload_request env info urls) s =
      for_user info (λ i t. (upload_documents T env i.user_id urls t).1) s
  run_request (submit_request env info) s =
      for_user info (λ i t. (submit_kyc T env i.user_id t).1) s
  run_request (verify_request env user level) s = (verify_kyc T env user (level_or_l1 level) s).1
  run_request (reject_request env user reason) s = (reject_kyc T env user reason s).1

  unfoldable pub run_requests : List Request → State Rows → State Rows
  run_requests [] s = s
  run_requests (q ∷ qs) s = run_requests qs (run_request q s)

  -- Where no database call fails, the endpoint of the administrator verifies any record that exists,
  -- whatever its status and without any document.
  pub verify_unchecked :
      (now user : ℕ) (has_stream : Bool) (level : Option KycLevel) (r : Kyc) (s : State Rows)
      → find user s.records ≡ some r
      → find user
          (run_request
            (verify_request
              (record { now = now; has_fault = λ site. false; has_stream = has_stream })
              user
              level)
            s).records
        ≡ some (verified_kyc now (level_or_l1 level) r)
  unfolding run_request verify_kyc
  verify_unchecked now user has_stream level r s here =
      ground (arith, here, find-put user user (verified_kyc now (level_or_l1 level) r) s.records)
