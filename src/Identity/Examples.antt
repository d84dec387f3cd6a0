-- ===== src/Identity/Examples.antt =====
-- Tests of the identity service on a table of two users, and the theorems at those inputs.
use tec_core_backend.Base.{ℕ, false, none, some, List, [], ◌∷◌, ◌≡◌, refl, arith}
use tec_core_backend.Base.Action.{ok, err}
use tec_core_backend.Base.Table.{Table}
use tec_core_backend.Base.Table.Rows.{rows}
use tec_core_backend.Identity.{
  User, Env, Claims, ProfileBody, unique_violation, new_user, given, given_text, get_me,
  patch_profile, find_or_create_user, insert_user, update_profile,
}
use tec_core_backend.Identity.Users.{
  Request, me_request, patch_request, created_event, run_requests, IsKept, AreUnique, HasRefused,
  run_requests-IsKept, taken_name_refuses,
}

abbrev users : Table User
users = rows

abbrev env : Env
env = record { has_fault = λ x. false }

-- A token that gives no name.
abbrev nameless : ℕ → Claims
nameless pi = record {
  sub = some pi;
  pi_uid = none;
  pi_id = none;
  pi_user_id = none;
  pi_username = none;
  username = none;
  pi_username_camel = none;
}

abbrev one_user : Table.Rows users
one_user = (0, new_user 7 "unknown") ∷ []

abbrev body : ProfileBody
body = record {
  display_name = some "";
  bio = some "hello";
  country = none;
  language = some "ar";
  avatar_url = none;
}

-- An empty text of the body leaves the old one.
keeps_the_old_name :
    (patch_profile users env (some (nameless 7)) body one_user).0
    ≡ ok (record {
      display_name = some "unknown";
      bio = some "hello";
      country = none;
      language = "ar";
      avatar_url = none;
    })
unfolding patch_profile find_or_create_user update_profile given given_text
keeps_the_old_name = refl

second_nameless : (get_me users env (some (nameless 8)) one_user).0 ≡ err unique_violation
unfolding get_me find_or_create_user insert_user
second_nameless = refl

taken_name_refuses_example :
    HasRefused users one_user (get_me users env (some (nameless 8)) one_user)
    × HasRefused users one_user (patch_profile users env (some (nameless 8)) body one_user)
taken_name_refuses_example =
    taken_name_refuses users env (nameless 8) 8 0 (new_user 7 "unknown") one_user body refl refl
      refl refl

abbrev day : List Request
day =
    created_event env (record { pi_user_id = some 9; username = "carol" })
    ∷ patch_request env (some (nameless 7)) body
    ∷ me_request env (some (nameless 8))
    ∷ []

only_one : AreUnique users one_user
only_one i j u v here there same = ground (arith, here, there)

run_requests-IsKept_example :
    IsKept users 0 (new_user 7 "unknown") (run_requests users day one_user)
run_requests-IsKept_example =
    run_requests-IsKept users day one_user 0 (new_user 7 "unknown")
      (only_one, (refl, refl, refl, refl))
