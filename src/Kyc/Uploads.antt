-- ===== src/Kyc/Uploads.antt =====
-- What an upload to tec-kyc-service/src/modules/kyc/kyc.service.ts does to a record.
use tec_core_backend.Base.{
  ℕ, Bool, true, false, not, ◌&&◌, ◌||◌, Option, none, some, ◌==◌, ◌≡◌, refl, ◌∙◌, ap, ==_iff,
  is_some, if◌then◌else◌, inl, inr, Bool-cases, arith,
}
use tec_core_backend.Base.Action.{Result, ok, err, ◌>>=◌}
use tec_core_backend.Base.Table.Keyed.{Keyed}
use tec_core_backend.Kyc.{
  Kyc, Thrown, at_update, State, Env, Urls, is_verified, is_pending, with_documents, get_or_create,
  put_documents,
}

-- A record under review has its documents.
abbrev pub is_documented : Option Kyc → Bool
is_documented none = true
is_documented (some r) =
    not (is_pending r.status) || (is_some r.id_front_url && is_some r.selfie_url)

with_documents-status : (urls : Urls) (r : Kyc) → (with_documents urls r).status ≡ r.status
unfolding with_documents
with_documents-status urls r = refl

-- Uploads take no document away.
with_documents-documented :
    (urls : Urls) (r : Kyc)
    → is_documented (some r) ≡ true
    → is_documented (some (with_documents urls r)) ≡ true
unfolding with_documents
with_documents-documented urls r h = ground arith

abbrev pub is_verified_row : Option Kyc → Bool
is_verified_row none = false
is_verified_row (some r) = is_verified r.status

-- A record is as verified as before, and a verified one has not changed at all.
abbrev pub IsKept : Option Kyc → Option Kyc → Type 0
IsKept before after =
    (is_verified_row after ≡ is_verified_row before)
    × ((if is_verified_row before then after else none)
        ≡ (if is_verified_row before then before else none))

-- Besides, a record under review keeps its documents.
abbrev pub IsSound : Option Kyc → Option Kyc → Type 0
IsSound before after =
    (is_documented before ≡ true → is_documented after ≡ true) × IsKept before after

IsSound-trans : (a b c : Option Kyc) → IsSound a b → IsSound b c → IsSound a c
IsSound-trans a b c (f, (p, q)) (g, (v, w)) = ((λ h. g (f h)), ground arith)

module _ (T : Keyed Kyc) where
  open T use {Rows, find, put, find-put}

  -- What `getOrCreate` leaves of the row of a user: it is documented and kept as far as it was, and
  -- the row that is returned is the one stored.
  abbrev pub Got : ℕ → ℕ → Option Kyc → Result Thrown Kyc × State Rows → Type 0
  Got user u before (ok r, t) = (find user t.records ≡ some r) × IsSound before (find u t.records)
  Got user u before (err e, t) = IsSound before (find u t.records)

  pub get_or_create-Got :
      (env : Env) (user u : ℕ) (s : State Rows)
      → Got user u (find u s.records) (get_or_create T env user none none s)
  unfolding get_or_create
  get_or_create-Got env user u s = grind (arith, find-put u user, find-put user user)

  put_documents-records :
      (env : Env) (user : ℕ) (urls : Urls) (r : Kyc) (s : State Rows)
      → find user s.records ≡ some r
      → (put_documents T env user urls r s).1.records ≡ (
          if is_verified r.status || env.has_fault at_update
          then s.records
          else put user (with_documents urls r) s.records)
  unfolding put_documents
  put_documents-records env user urls r s here = ground arith

  with_documents-IsSound :
      (urls : Urls) (r : Kyc)
      → is_verified r.status ≡ false
      → IsSound (some r) (some (with_documents urls r))
  with_documents-IsSound urls r unverified =
      (with_documents-documented urls r, ground (arith, with_documents-status urls r))

  put-IsSound :
      (user u : ℕ) (r q : Kyc) (t : Rows)
      → find user t ≡ some r
      → IsSound (some r) (some q)
      → IsSound (find u t) (find u (put user q t))
  put-IsSound user u r q t here sound = rw (find-put u user q t) (elim (Bool-cases (u == user)) [
    | inl e ↦
        let found : find u t ≡ some r = ap (λ k. find k t) ((==_iff u user).0 e) ∙ here in
        rw (e, found) sound
    | inr e ↦ rw e ((λ h. h), (refl, refl))
  ])

  put_documents-IsSound :
      (env : Env) (user u : ℕ) (urls : Urls) (r : Kyc) (s : State Rows)
      → find user s.records ≡ some r
      → IsSound (find u s.records) (find u (put_documents T env user urls r s).1.records)
  put_documents-IsSound env user u urls r s here =
      rw (put_documents-records env user urls r s here)
        (elim (Bool-cases (is_verified r.status || env.has_fault at_update)) [
          | inl e ↦ rw e ((λ h. h), (refl, refl))
          | inr e ↦ rw e (
              put-IsSound user u r (with_documents urls r) s.records here
                (with_documents-IsSound urls r (ground arith)))
        ])

  pub upload-IsSound :
      (env : Env) (user u : ℕ) (urls : Urls) (s : State Rows) (before : Option Kyc)
      (p : Result Thrown Kyc × State Rows)
      → Got user u before p
      → IsSound before
          (find u (((λ (x : State Rows). p) >>= put_documents T env user urls) s).1.records)
  upload-IsSound env user u urls s before (ok r, t) (here, sound) =
      IsSound-trans before (find u t.records) (find u (put_documents T env user urls r t).1.records)
        sound (put_documents-IsSound env user u urls r t here)
  upload-IsSound env user u urls s before (err e, t) sound = sound
