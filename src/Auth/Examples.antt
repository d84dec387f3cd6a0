-- ===== src/Auth/Examples.antt =====
-- Tests of the authentication of one user, and the theorems at those inputs. The tokens are 2 for the
-- refresh token and 1 for any other; the refresh token expires at second 700000.
use tec_core_backend.Base.{
  ℕ, ◌+◌, ◌≤◌, ◌<◌, Bool, true, false, ◌&&◌, Option, none, some, List, [], ◌∷◌, ◌==◌, ◌≡◌, refl,
  ltb, if◌then◌else◌, arith,
}
use tec_core_backend.Base.Table.{Table}
use tec_core_backend.Base.Table.Rows.{rows}
use tec_core_backend.Auth.{
  User, TokenPayload, Jwt, Blacklist, Config, Env, Tables, RegisterDto, refresh_token,
}
use tec_core_backend.Auth.Accounts.{pi_login, register, login}
use tec_core_backend.Auth.Refresh.{
  Request, refresh_request, logout_request, is_ok, run_requests, refresh_once,
}

abbrev session : TokenPayload
session = record { sub = 0; is_refresh = true; exp = some 700000 }

-- The secret of refresh tokens is 20, and only token 2 is good.
abbrev verify : ℕ → ℕ → ℕ → Option TokenPayload
verify now secret token =
    if ltb now 700000 && (secret == 20 && token == 2) then some session else none

verify_same :
    (now later secret token : ℕ) (p q : TokenPayload)
    → verify now secret token ≡ some p
    → verify later secret token ≡ some q
    → p ≡ q
verify_same now later secret token p q g h = ground (arith, g, h)

verify_expires :
    (now secret token e : ℕ) (p : TokenPayload)
    → verify now secret token ≡ some p
    → p.exp ≡ some e
    → now < e
verify_expires now secret token e p g h = ground (arith, g, h)

abbrev jwt : Jwt
jwt = record {
  verify = verify;
  sign = λ now secret user is_refresh ttl. if is_refresh then 2 else 1;
  verify_same = verify_same;
  verify_expires = verify_expires;
}

abbrev has_key : ℕ → ℕ → List (ℕ × ℕ) → Bool
has_key now token [] = false
has_key now token ((t, until) ∷ b) = if token == t then ltb now until else has_key now token b

has_key_before :
    (now later token : ℕ) (b : List (ℕ × ℕ))
    → now ≤ later
    → has_key later token b ≡ true
    → has_key now token b ≡ true
has_key_before now later token [] le h = h
has_key_before now later token ((t, until) ∷ b) le h =
    ground (arith, le, h, has_key_before now later token b le)

abbrev redis : Blacklist
redis = record {
  Keys = List (ℕ × ℕ);
  has_key = has_key;
  set_key = λ now token ttl b. (token, now + ttl) ∷ b;
  has_key_before = has_key_before;
  has_key-set_key = λ now later ttl j k b. refl;
}

abbrev users : Table User
users = rows

abbrev config : Config
config = record {
  jwt_secret = 10;
  jwt_refresh_secret = 20;
  expires_in = 86400;
  refresh_expires_in = 604800;
  has_redis = true;
}

abbrev at_second : ℕ → Env
at_second n = record {
  now = n;
  has_fault = λ site. false;
  hash = λ password. password + 1;
  compare = λ password h. password + 1 == h;
  pi_me = λ token. some (33, 34);
}

abbrev alice : RegisterDto
alice = record { email = some 5; password = some 6; pi_uid = some 33; pi_username = none }

abbrev start : Tables jwt redis users config
start = record { blacklist = []; users = []; events = [] }

abbrev registered : Tables jwt redis users config
registered = (register jwt redis users config (at_second 100) alice start).1

wrong_password :
    is_ok
      (login jwt redis users config
        (at_second 100)
        (record { pi_uid = none; email = some 5; password = some 7 })
        registered).0
    ≡ false
unfolding register login
wrong_password = refl

-- The uid alone is enough.
without_password :
    is_ok
      (login jwt redis users config
        (at_second 100)
        (record { pi_uid = some 33; email = none; password = none })
        registered).0
    ≡ true
unfolding register login
without_password = refl

not_new : (pi_login jwt redis users config (at_second 100) (some 9) registered).1.events ≡ []
unfolding register pi_login
not_new = refl

abbrev others : List Request
others = refresh_request (at_second 300) 2 ∷ logout_request (at_second 400) 1 ∷ []

refresh_once_example :
    is_ok
      (refresh_token jwt redis users config (at_second 500) 2 (
        run_requests jwt redis users config others
          (refresh_token jwt redis users config (at_second 200) 2 registered).1)).0
    ≡ false
unfolding register refresh_token
refresh_once_example =
    refresh_once jwt redis users config (at_second 200) (at_second 500) 2 700000 session registered
      others refl refl refl refl (omega arith, ((omega arith, refl), tt))

abbrev used_up : Tables jwt redis users config
used_up = (refresh_token jwt redis users config (at_second 200) 2 registered).1
