-- ===== src/Kyc/Reviews.antt =====
-- What any sequence of requests does to the records of tec-kyc-service/src/modules/kyc/kyc.service.ts.
use tec_core_backend.Base.{
  ℕ, true, none, some, List, [], ◌∷◌, ◌==◌, ◌≡◌, refl, All, inl, inr, Bool-cases, arith,
}
use tec_core_backend.Base.Table.Keyed.{Keyed}
use tec_core_backend.Kyc.{
  Kyc, State, get_or_create, start_kyc, upload_documents, submit_kyc, verify_kyc, reject_kyc,
}
use tec_core_backend.Kyc.Uploads.{is_documented, IsKept, get_or_create-Got, upload-IsSound}
use tec_core_backend.Kyc.Requests.{
  Request, status_request, start_request, upload_request, submit_request, verify_request,
  reject_request, run_request, run_requests,
}

-- The requests that users make.
abbrev pub IsOfUser : Request → Type 0
IsOfUser (verify_request env v level) = ⊥
IsOfUser (reject_request env v reason) = ⊥
IsOfUser q = Unit {0}

module _ (T : Keyed Kyc) where
  open T use {Rows, find, put, find-put}

  request-documented :
      (q : Request) (u : ℕ) (s : State Rows)
      → is_documented (find u s.records) ≡ true
      → is_documented (find u (run_request T q s).records) ≡ true
  unfolding run_request get_or_create start_kyc upload_documents submit_kyc verify_kyc reject_kyc
  request-documented (status_request env none) u s h = h
  request-documented (status_request env (some i)) u s h = grind (arith, find-put u i.user_id)
  request-documented (start_request env none) u s h = h
  request-documented (start_request env (some i)) u s h =
      grind (arith, find-put u i.user_id, find-put i.user_id i.user_id)
  request-documented (upload_request env none urls) u s h = h
  request-documented (upload_request env (some i) urls) u s h =
      (upload-IsSound T env i.user_id u urls s (find u s.records)
          (get_or_create T env i.user_id none none s) (get_or_create-Got T env i.user_id u s)).0
        h
  request-documented (submit_request env none) u s h = h
  request-documented (submit_request env (some i)) u s h =
      grind (arith, find-put u i.user_id, find-put i.user_id i.user_id)
  request-documented (verify_request env v level) u s h = grind (arith, find-put u v)
  request-documented (reject_request env v reason) u s h = grind (arith, find-put u v)

  -- Any sequence of requests, whatever database calls fail, leaves a record under review only with
  -- the front of the ID and a selfie, where that was so before.
  pub run_requests-documented :
      (qs : List Request) (u : ℕ) (s : State Rows)
      → is_documented (find u s.records) ≡ true
      → is_documented (find u (run_requests T qs s).records) ≡ true
  unfolding run_requests
  run_requests-documented [] u s h = h
  run_requests-documented (q ∷ qs) u s h =
      run_requests-documented qs u (run_request T q s) (request-documented q u s h)

  user_request-IsKept :
      (q : Request) (u : ℕ) (s : State Rows)
      → IsOfUser q
      → IsKept (find u s.records) (find u (run_request T q s).records)
  unfolding run_request get_or_create start_kyc upload_documents submit_kyc
  user_request-IsKept (status_request env none) u s h = (refl, refl)
  user_request-IsKept (status_request env (some i)) u s h = grind (arith, find-put u i.user_id)
  user_request-IsKept (start_request env none) u s h = (refl, refl)
  user_request-IsKept (start_request env (some i)) u s h = elim (Bool-cases (u == i.user_id)) [
    | inl e ↦ grind (arith, find-put u i.user_id, find-put i.user_id i.user_id)
    | inr e ↦ grind (arith, find-put u i.user_id, find-put i.user_id i.user_id)
  ]
  user_request-IsKept (upload_request env none urls) u s h = (refl, refl)
  user_request-IsKept (upload_request env (some i) urls) u s h =
      (upload-IsSound T env i.user_id u urls s (find u s.records)
        (get_or_create T env i.user_id none none s) (get_or_create-Got T env i.user_id u s)).1
  user_request-IsKept (submit_request env none) u s h = (refl, refl)
  user_request-IsKept (submit_request env (some i)) u s h = elim (Bool-cases (u == i.user_id)) [
    | inl e ↦ grind (arith, find-put u i.user_id, find-put i.user_id i.user_id)
    | inr e ↦ grind (arith, find-put u i.user_id, find-put i.user_id i.user_id)
  ]
  user_request-IsKept (verify_request env v level) u s h = absurd h
  user_request-IsKept (reject_request env v reason) u s h = absurd h

  -- No sequence of the requests that users make, whatever database calls fail, makes a record verified
  -- or changes one that is.
  pub user_requests-IsKept :
      (qs : List Request) (u : ℕ) (s : State Rows)
      → All IsOfUser qs
      → IsKept (find u s.records) (find u (run_requests T qs s).records)
  unfolding run_requests
  user_requests-IsKept [] u s h = (refl, refl)
  user_requests-IsKept (q ∷ qs) u s (h, hs) =
      ground (arith, user_request-IsKept q u s h, user_requests-IsKept qs u (run_request T q s) hs)
