-- ===== src/Identity/Users.antt =====
-- The users of the identity service (tec-identity-service/src/modules/identity) over any sequence of its
-- requests and of the events `user.created`.
use tec_core_backend.Base.{
  ℕ, true, false, Option, none, some, List, [], ◌∷◌, String, ◌==◌, ◌≡◌, ◌⊎◌, inl, inr, refl, sym,
  ◌∙◌, Bool-cases, Option-cases, arith,
}
use tec_core_backend.Base.Action.{Result, ok, err, ◌>>=◌}
use tec_core_backend.Base.Table.{Table}
use tec_core_backend.Base.Text.{eq_iff}
use tec_core_backend.Identity
use tec_core_backend.Identity.{
  Profile, User, Thrown, Env, Claims, NewUser, user_info, ProfileBody, new_user, has_pi,
  is_taken_by, with_profile, insert_user, find_or_create_user, update_profile, get_me,
  patch_profile,
}

-- A request of a user, or an event.
pub data Request : Type 0 where
  me_request : Env → Option Claims → Request
  patch_request : Env → Option Claims → ProfileBody → Request
  created_event : Env → NewUser → Request

module _ (T : Table User) where
  open T use {
    Rows, find, find_first, update, create, find-update, create_fresh, find-create,
    find_first_sound, find_first_complete,
  }

  unfoldable pub run_request : Request → Rows → Rows
  run_request (me_request env claims) t = (get_me T env claims t).1
  run_request (patch_request env claims body) t = (patch_profile T env claims body t).1
  run_request (created_event env dto) t = (find_or_create_user T env dto t).1

  unfoldable pub run_requests : List Request → Rows → Rows
  run_requests [] t = t
  run_requests (q ∷ qs) t = run_requests qs (run_request q t)

  -- A change of the table: none, a new user with values that no row has, or a new profile.
  pub data Change (t t' : Rows) : Type 0 where
    kept : t' ≡ t → Change t t'
    inserted :
        (pi : ℕ) (name : String)
        → find_first (is_taken_by pi name) t ≡ none
        → t' ≡ (create (new_user pi name) t).1
        → Change t t'
    profiled : (id : ℕ) (body : ProfileBody) → t' ≡ update id (with_profile body) t → Change t t'

  -- One after the other.
  pub data Changes (t t' : Rows) : Type 0 where
    one : Change t t' → Changes t t'
    two : (m : Rows) → Change t m → Change m t' → Changes t t'

  insert-Change :
      (env : Env) (pi : ℕ) (name : String) (t : Rows) → Change t (insert_user T env pi name t).1
  unfolding insert_user
  insert-Change env pi name t = elim (Bool-cases (env.has_fault Identity.at_create)) [
    | inl e ↦ rw e (kept refl)
    | inr e ↦ rw e (elim (Option-cases (find_first (is_taken_by pi name) t)) [
      | inl free ↦ rw free (inserted pi name free refl)
      | inr (x, taken) ↦ rw taken (kept refl)
    ])
  ]

  find_or_create-Change :
      (env : Env) (dto : NewUser) (t : Rows) → Change t (find_or_create_user T env dto t).1
  unfolding find_or_create_user
  find_or_create-Change env dto t = elim (Bool-cases (env.has_fault Identity.at_find)) [
    | inl e ↦ rw e (kept refl)
    | inr e ↦ rw e (elim (Option-cases dto.pi_user_id) [
      | inl gone ↦ rw gone (kept refl)
      | inr (pi, there) ↦ rw there (elim (Option-cases (find_first (has_pi pi) t)) [
        | inl new ↦ rw new (insert-Change env pi dto.username t)
        | inr (x, old) ↦ rw old (kept refl)
      ])
    ])
  ]

  update-Change :
      (env : Env) (id : ℕ) (body : ProfileBody) (t : Rows)
      → Change t (update_profile T env id body t).1
  unfolding update_profile
  update-Change env id body t = elim (Bool-cases (env.has_fault Identity.at_find_id)) [
    | inl e ↦ rw e (kept refl)
    | inr e ↦ rw e (elim (Option-cases (find id t)) [
      | inl gone ↦ rw gone (kept refl)
      | inr (u, there) ↦ rw there (elim (Bool-cases (env.has_fault Identity.at_upsert)) [
        | inl e' ↦ rw e' (kept refl)
        | inr e' ↦ rw e' (profiled id body refl)
      ])
    ])
  ]

  -- Two rows with the same Pi id or the same name are one row.
  abbrev pub AreUnique : Rows → Type 0
  AreUnique t =
      (i j : ℕ) (u v : User)
      → find i t ≡ some u
      → find j t ≡ some v
      → (u.pi_user_id ≡ v.pi_user_id) ⊎ (u.username ≡ v.username)
      → i ≡ j

  untaken :
      (pi : ℕ) (name : String) (t : Rows) (i : ℕ) (u : User)
      → find_first (is_taken_by pi name) t ≡ none
      → find i t ≡ some u
      → ((u.pi_user_id ≡ pi) ⊎ (u.username ≡ name))
      → ⊥
  untaken pi name t i u free here (inl same) =
      ground (arith, find_first_complete (is_taken_by pi name) t i u free here, same)
  untaken pi name t i u free here (inr same) = ground (
    arith,
    find_first_complete (is_taken_by pi name) t i u free here,
    (eq_iff u.username name).1 same,
  )

  swap :
      (u v : User)
      → (u.pi_user_id ≡ v.pi_user_id) ⊎ (u.username ≡ v.username)
      → (v.pi_user_id ≡ u.pi_user_id) ⊎ (v.username ≡ u.username)
  swap u v (inl e) = inl (sym e)
  swap u v (inr e) = inr (sym e)

  is_new :
      (pi : ℕ) (name : String) (t : Rows) (i : ℕ) (u : User)
      → (i == (create (new_user pi name) t).0) ≡ true
      → find i (create (new_user pi name) t).1 ≡ some u
      → (u.pi_user_id ≡ pi) × (u.username ≡ name)
  is_new pi name t i u a here = ground (arith, a, here, find-create i (new_user pi name) t)

  is_old :
      (pi : ℕ) (name : String) (t : Rows) (i : ℕ) (u : User)
      → (i == (create (new_user pi name) t).0) ≡ false
      → find i (create (new_user pi name) t).1 ≡ some u
      → find i t ≡ some u
  is_old pi name t i u a here = ground (arith, a, here, find-create i (new_user pi name) t)

  -- No row shares a value with the new one.
  twin :
      (pi : ℕ) (name : String) (t : Rows) (j : ℕ) (u v : User)
      → find_first (is_taken_by pi name) t ≡ none
      → (u.pi_user_id ≡ pi) × (u.username ≡ name)
      → find j t ≡ some v
      → (u.pi_user_id ≡ v.pi_user_id) ⊎ (u.username ≡ v.username)
      → ⊥
  twin pi name t j u v free (a, b) there (inl e) =
      untaken pi name t j v free there (inl (sym e ∙ a))
  twin pi name t j u v free (a, b) there (inr e) =
      untaken pi name t j v free there (inr (sym e ∙ b))

  insert-AreUnique :
      (pi : ℕ) (name : String) (t : Rows)
      → find_first (is_taken_by pi name) t ≡ none
      → AreUnique t
      → AreUnique (create (new_user pi name) t).1
  insert-AreUnique pi name t free unique i j u v here there same =
      let new = (create (new_user pi name) t).0 in
      elim (Bool-cases (i == new)) [
        | inl a ↦ elim (Bool-cases (j == new)) [
          | inl b ↦ ground (arith, a, b)
          | inr b ↦ absurd (
              twin pi name t j u v free (is_new pi name t i u a here) (is_old pi name t j v b there)
                same)
        ]
        | inr a ↦ elim (Bool-cases (j == new)) [
          | inl b ↦ absurd (
              twin pi name t i v u free (is_new pi name t j v b there) (is_old pi name t i u a here)
                (swap u v same))
          | inr b ↦ unique i j u v (is_old pi name t i u a here) (is_old pi name t j v b there) same
        ]
      ]

  -- A user has the Pi id, the name, the KYC record and the roles of another row.
  abbrev pub IsSame : User → Option User → Type 0
  IsSame u none = ⊥
  IsSame u (some v) =
      (v.pi_user_id ≡ u.pi_user_id)
      × (v.username ≡ u.username)
      × (v.kyc ≡ u.kyc)
      × (v.roles ≡ u.roles)

  Change-keeps :
      (t t' : Rows) (i : ℕ) (u : User) → Change t t' → IsSame u (find i t) → IsSame u (find i t')
  Change-keeps t t' i u (kept e) h = rw e h
  Change-keeps t t' i u (inserted pi name free e) h =
      rw (e, find-create i (new_user pi name) t)
        (ground (arith, h, create_fresh (new_user pi name) t))
  Change-keeps t t' i u (profiled id body e) h =
      rw (e, find-update i id (with_profile body) t) (ground (arith, h))

  -- A new profile leaves the columns of a row as they were.
  updated_from :
      (id : ℕ) (body : ProfileBody) (t : Rows) (i : ℕ) (u : User)
      → find i (update id (with_profile body) t) ≡ some u
      → (w : User) × ((find i t ≡ some w)
          × (w.pi_user_id ≡ u.pi_user_id)
          × (w.username ≡ u.username))
  updated_from id body t i u here = elim (Option-cases (find i t)) [
    | inl gone ↦ absurd (ground (arith, gone, here, find-update i id (with_profile body) t))
    | inr (w, there) ↦
        let columns : (w.pi_user_id ≡ u.pi_user_id) × (w.username ≡ u.username) =
          ground (arith, there, here, find-update i id (with_profile body) t) in
        (w, (there, columns.0, columns.1))
  ]

  Change-AreUnique : (t t' : Rows) → Change t t' → AreUnique t → AreUnique t'
  Change-AreUnique t t' (kept e) h = rw e h
  Change-AreUnique t t' (inserted pi name free e) h = rw e (insert-AreUnique pi name t free h)
  Change-AreUnique t t' (profiled id body e) h = rw e (λ i j u v here there same.
      let (a, (found_a, pi_a, name_a)) = updated_from id body t i u here in
      let (b, (found_b, pi_b, name_b)) = updated_from id body t j v there in
      h i j a b found_a found_b (as_before a b u v pi_a name_a pi_b name_b same))
    where
      as_before :
          (a b u v : User)
          → a.pi_user_id ≡ u.pi_user_id
          → a.username ≡ u.username
          → b.pi_user_id ≡ v.pi_user_id
          → b.username ≡ v.username
          → (u.pi_user_id ≡ v.pi_user_id) ⊎ (u.username ≡ v.username)
          → (a.pi_user_id ≡ b.pi_user_id) ⊎ (a.username ≡ b.username)
      as_before a b u v p n q m (inl e') = inl (p ∙ e' ∙ sym q)
      as_before a b u v p n q m (inr e') = inr (n ∙ e' ∙ sym m)

  patch-Changes :
      (env : Env) (claims : Option Claims) (body : ProfileBody) (t : Rows)
      → Changes t (patch_profile T env claims body t).1
  unfolding patch_profile
  patch-Changes env none body t = one (kept refl)
  patch-Changes env (some c) body t =
      after (find_or_create_user T env (user_info c) t) (find_or_create-Change env (user_info c) t)
    where
      after :
          (r : Result Thrown (ℕ × User) × Rows)
          → Change t r.1
          → Changes t (((λ (x : Rows). r) >>= (λ e. update_profile T env e.0 body)) t).1
      after (ok e, m) first = two m first (update-Change env e.0 body m)
      after (err e, m) first = one first

  request-Changes : (q : Request) (t : Rows) → Changes t (run_request q t)
  unfolding run_request get_me
  request-Changes (me_request env none) t = one (kept refl)
  request-Changes (me_request env (some c)) t = one (find_or_create-Change env (user_info c) t)
  request-Changes (patch_request env claims body) t = patch-Changes env claims body t
  request-Changes (created_event env dto) t = one (find_or_create-Change env dto t)

  -- The rows are unique, and the user with the id still is the same.
  abbrev pub IsKept : ℕ → User → Rows → Type 0
  IsKept i u t = AreUnique t × IsSame u (find i t)

  Change-IsKept : (t t' : Rows) (i : ℕ) (u : User) → Change t t' → IsKept i u t → IsKept i u t'
  Change-IsKept t t' i u c (unique, same) =
      (Change-AreUnique t t' c unique, Change-keeps t t' i u c same)

  Changes-IsKept : (t t' : Rows) (i : ℕ) (u : User) → Changes t t' → IsKept i u t → IsKept i u t'
  Changes-IsKept t t' i u (one c) h = Change-IsKept t t' i u c h
  Changes-IsKept t t' i u (two m c c') h = Change-IsKept m t' i u c' (Change-IsKept t m i u c h)

  -- Over any requests and events, with any failing calls: no two users have one Pi id or one name,
  -- if that was so before, and a user keeps his id, his Pi id, his name, his KYC record and his
  -- roles; only profiles change.
  pub run_requests-IsKept :
      (qs : List Request) (t : Rows) (i : ℕ) (u : User)
      → IsKept i u t
      → IsKept i u (run_requests qs t)
  unfolding run_requests
  run_requests-IsKept [] t i u h = h
  run_requests-IsKept (q ∷ qs) t i u h =
      run_requests-IsKept qs (run_request q t) i u
        (Changes-IsKept t (run_request q t) i u (request-Changes q t) h)

  -- A throw that changes nothing.
  abbrev pub HasRefused : {A : Type 0} → Rows → Result Thrown A × Rows → Type 0
  HasRefused t (ok e, t') = ⊥
  HasRefused t (err e, t') = t' ≡ t

  insert_taken :
      (env : Env) (pi : ℕ) (name : String) (t : Rows) (x : ℕ × User)
      → find_first (is_taken_by pi name) t ≡ some x
      → HasRefused t (insert_user T env pi name t)
  unfolding insert_user
  insert_taken env pi name t x taken = elim (Bool-cases (env.has_fault Identity.at_create)) [
    | inl e ↦ rw e refl
    | inr e ↦ rw (e, taken) refl
  ]

  found_taken :
      (env : Env) (c : Claims) (pi i : ℕ) (u : User) (t : Rows)
      → (user_info c).pi_user_id ≡ some pi
      → find_first (has_pi pi) t ≡ none
      → find i t ≡ some u
      → u.username ≡ (user_info c).username
      → HasRefused t (find_or_create_user T env (user_info c) t)
  unfolding find_or_create_user
  found_taken env c pi i u t who new here same =
      elim (Bool-cases (env.has_fault Identity.at_find)) [
        | inl e ↦ rw e refl
        | inr e ↦
            rw (e, who, new)
              (elim (Option-cases (find_first (is_taken_by pi (user_info c).username) t)) [
                | inl free ↦ absurd (untaken pi (user_info c).username t i u free here (inr same))
                | inr (x, taken) ↦ insert_taken env pi (user_info c).username t x taken
              ])
      ]

  -- A user whose name another one has is refused: where no row has his Pi id and some row has the
  -- name that his token gives (`unknown`, if it gives none), each GET of his record and each
  -- PATCH of his profile throws and leaves the table as it is.
  pub taken_name_refuses :
      (env : Env) (c : Claims) (pi i : ℕ) (u : User) (t : Rows) (body : ProfileBody)
      → (user_info c).pi_user_id ≡ some pi
      → find_first (has_pi pi) t ≡ none
      → find i t ≡ some u
      → u.username ≡ (user_info c).username
      → HasRefused t (get_me T env (some c) t) × HasRefused t (patch_profile T env (some c) body t)
  unfolding get_me patch_profile
  taken_name_refuses env c pi i u t body who new here same =
      let refused = found_taken env c pi i u t who new here same in
      (refused, patch_refused _ refused)
    where
      patch_refused :
          (x : Result Thrown (ℕ × User) × Rows)
          → HasRefused t x
          → HasRefused t (◌>>=◌ (λ (v : Rows). x) (λ e. update_profile T env e.0 body) t)
      patch_refused (err e, t') h = h
      patch_refused (ok e, t') h = absurd h
