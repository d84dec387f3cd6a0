-- ===== src/Kyc/Examples.antt =====
-- Tests of the KYC service on one user, and the theorems at those inputs.
use tec_core_backend.Base.{Bool, true, false, none, some, List, [], ◌∷◌, ◌≡◌, refl}
use tec_core_backend.Base.Table.Keyed.{Keyed, keyed_rows}
use tec_core_backend.Kyc.{
  Kyc, upload_action, not_started, l1, State, Env, Site, at_log, with_documents, get_or_create,
  start_kyc, upload_documents, put_documents, submit_kyc, verify_kyc, reject_kyc, new_kyc, Urls,
}
use tec_core_backend.Kyc.Requests.{
  UserInfo, Request, status_request, upload_request, submit_request, verify_request, run_request,
  run_requests,
}
use tec_core_backend.Kyc.Uploads.{is_documented}
use tec_core_backend.Kyc.Reviews.{run_requests-documented}

abbrev table : Keyed Kyc
table = keyed_rows

abbrev start : State (Keyed.Rows table)
start = record { records = []; logs = []; events = [] }

abbrev calm : Env
calm = record { now = 50; has_fault = λ site. false; has_stream = true }

abbrev is_log : Site → Bool
is_log at_log = true
is_log site = false

-- The entry of the log fails, after the row has been written.
abbrev unlogged : Env
unlogged = record { now = 51; has_fault = is_log; has_stream = true }

abbrev user : UserInfo
user = record { user_id = 7; pi_user_id = 70; username = 700 }

abbrev front_and_selfie : Urls
front_and_selfie = record { id_front_url = some 1; id_back_url = none; selfie_url = some 2 }

abbrev of_user : List Request
of_user =
    status_request calm (some user)
    ∷ submit_request calm (some user)
    ∷ upload_request calm (some user) front_and_selfie
    ∷ submit_request unlogged (some user)
    ∷ []

abbrev all_requests : List Request
all_requests =
    status_request calm (some user)
    ∷ upload_request calm (some user) front_and_selfie
    ∷ submit_request unlogged (some user)
    ∷ verify_request calm 7 none
    ∷ upload_request calm (some user) front_and_selfie
    ∷ []

abbrev reviewed : State (Keyed.Rows table)
reviewed = run_requests table of_user start

submitted_unlogged :
    reviewed.logs
    ≡ (record {
      user = 7;
      action = upload_action;
      from_status = not_started;
      to_status = not_started;
    })
      ∷ []
unfolding run_requests run_request get_or_create start_kyc upload_documents put_documents submit_kyc
    verify_kyc reject_kyc with_documents
submitted_unlogged = refl

verified_once : (run_requests table all_requests start).events ≡ (7, l1) ∷ []
unfolding run_requests run_request get_or_create start_kyc upload_documents put_documents submit_kyc
    verify_kyc reject_kyc with_documents
verified_once = refl

run_requests-documented_example :
    is_documented (Keyed.find table 7 (run_requests table all_requests start).records) ≡ true
run_requests-documented_example = run_requests-documented table all_requests 7 start refl

abbrev fresh_user : State (Keyed.Rows table)
fresh_user = record { records = (7, new_kyc none none) ∷ []; logs = []; events = [] }
