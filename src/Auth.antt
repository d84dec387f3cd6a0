-- ===== src/Auth.antt =====
-- The authentication service: tec-auth-service/src/modules/auth/auth.service.ts. Tokens, ids, names,
-- passwords and hashes are numbers, since they are only compared or handed on. The clock counts seconds.
use tec_core_backend.Base.{
  ℕ, zero, ◌+◌, ◌-◌, ◌<◌, ◌≤◌, Bool, true, false, not, ◌&&◌, ◌||◌, Option, none, some, List, [],
  ◌∷◌, ◌==◌, ◌≡◌, is_some, ltb, if◌then◌else◌,
}
use tec_core_backend.Base.Action.{
  Result, ok, err, Action, ◌>>=◌, ◌>>◌, pure, throw, or_throw, throw_if, modify, get,
}
use tec_core_backend.Base.Table.{Table}
pub mod Accounts
pub mod Refresh
mod Examples

pub record User : Type 0 where
  pub email : Option ℕ
  pub password_hash : Option ℕ
  pub pi_uid : Option ℕ
  pub pi_username : Option ℕ

pub record TokenPayload : Type 0 where
  pub sub : ℕ
  -- Whether `type` is `refresh`.
  pub is_refresh : Bool
  pub exp : Option ℕ

-- jsonwebtoken: a token that verifies at one time says the same at another, if it verifies then,
-- and it verifies before it expires only.
pub record Jwt : Type 0 where
  pub verify : ℕ → ℕ → ℕ → Option TokenPayload
  -- The secret, the subject, whether it is a refresh token, and the seconds until it expires.
  pub sign : ℕ → ℕ → ℕ → Bool → ℕ → ℕ
  pub verify_same :
      (now later secret token : ℕ) (p q : TokenPayload)
      → verify now secret token ≡ some p
      → verify later secret token ≡ some q
      → p ≡ q
  pub verify_expires :
      (now secret token e : ℕ) (p : TokenPayload)
      → verify now secret token ≡ some p
      → p.exp ≡ some e
      → now < e

-- The keys `blacklist:<token>` in Redis.
pub record Blacklist : Type 1 where
  pub Keys : Type 0
  pub has_key : ℕ → ℕ → Keys → Bool
  -- `setex`
  pub set_key : ℕ → ℕ → ℕ → Keys → Keys
  -- What is there later is there now.
  pub has_key_before :
      (now later token : ℕ) (b : Keys)
      → now ≤ later
      → has_key later token b ≡ true
      → has_key now token b ≡ true
  -- A key has the time of its last `setex`.
  pub has_key-set_key :
      (now later ttl j k : ℕ) (b : Keys)
      → has_key later j (set_key now k ttl b)
        ≡ (if j == k then ltb later (now + ttl) else has_key later j b)

pub record Config : Type 0 where
  pub jwt_secret : ℕ
  -- `JWT_REFRESH_SECRET`, or `JWT_SECRET` if it is not set.
  pub jwt_refresh_secret : ℕ
  pub expires_in : ℕ
  pub refresh_expires_in : ℕ
  -- Whether `REDIS_URL` is set.
  pub has_redis : Bool

pub record State (B U : Type 0) : Type 0 where
  pub blacklist : B
  pub users : U
  -- The stream `user.created`, the newest first.
  pub events : List ℕ

pub data Site : Type 0 where
  at_get at_setex at_find at_upsert at_create at_stream : Site

pub data Thrown : Type 0 where
  bad_request conflict invalid_token not_refresh already_used user_not_found invalid_credentials :
      Thrown
  invalid_pi_token db : Thrown

-- What a request meets: the clock, the calls of Redis and of the database that throw, bcrypt, and the
-- answer of the Pi API.
pub record Env : Type 0 where
  pub now : ℕ
  pub has_fault : Site → Bool
  pub hash : ℕ → ℕ
  pub compare : ℕ → ℕ → Bool
  pub pi_me : ℕ → Option (ℕ × ℕ)

pub record AuthResponse : Type 0 where
  pub is_new_user : Bool
  pub user_id : ℕ
  pub access_token : ℕ
  pub refresh_token : ℕ

-- An empty field is none.
pub record RegisterDto : Type 0 where
  pub email : Option ℕ
  pub password : Option ℕ
  pub pi_uid : Option ℕ
  pub pi_username : Option ℕ

pub record LoginDto : Type 0 where
  pub pi_uid : Option ℕ
  pub email : Option ℕ
  pub password : Option ℕ

-- Whether a column has the given value; without a value there is no condition.
abbrev pub is_same : Option ℕ → Option ℕ → Bool
is_same none column = false
is_same (some k) none = false
is_same (some k) (some v) = k == v

abbrev pub has_pi_uid : Option ℕ → User → Bool
has_pi_uid uid u = is_same uid u.pi_uid

abbrev pub has_email : Option ℕ → User → Bool
has_email email u = is_same email u.email

-- `const ttl = (payload.exp ?? 0) - now`, or 0 where that is negative: the code only uses a positive one.
abbrev pub seconds_left : ℕ → Option ℕ → ℕ
seconds_left now none = 0
seconds_left now (some e) = e - now

-- `FALLBACK_TTL`
abbrev pub fallback_ttl : ℕ
fallback_ttl = 86400

module _ (J : Jwt) (B : Blacklist) (T : Table User) (config : Config) where
  open B use {has_key, set_key}

  abbrev pub Tables : Type 0
  Tables = State (Blacklist.Keys B) (Table.Rows T)

  abbrev pub Act : Type 0 → Type 0
  Act R = Action Tables Thrown R

  abbrev pub attempt : Env → Site → Act (Unit {0})
  attempt env site = throw_if (env.has_fault site) db

  -- `redis.setex`
  abbrev set_blacklist : Env → ℕ → ℕ → Act (Unit {0})
  set_blacklist env token ttl = do
    attempt env at_setex
    modify (λ (s : Tables). record s { blacklist = set_key env.now token ttl s.blacklist })

  -- The read of the blacklist, if there is a Redis.
  abbrev check_blacklist : Env → ℕ → Act (Unit {0})
  check_blacklist env token s =
      if config.has_redis
      then (attempt env at_get >> throw_if (has_key env.now token s.blacklist) already_used) s
      else (ok tt, s)

  abbrev use_up : Env → ℕ → ℕ → Act (Unit {0})
  use_up env token ttl s =
      if config.has_redis && ltb 0 ttl then set_blacklist env token ttl s else (ok tt, s)

  abbrev pub find_user : Env → ℕ → Act (Option User)
  find_user env id s = (attempt env at_find >> pure (Table.find T id s.users)) s

  abbrev pub access_token : Env → ℕ → ℕ
  access_token env user = Jwt.sign J env.now config.jwt_secret user false config.expires_in

  -- `refreshToken`
  unfoldable pub refresh_token : Env → ℕ → Act ℕ
  refresh_token env token = do
    p ← or_throw (Jwt.verify J env.now config.jwt_refresh_secret token) invalid_token
    throw_if (not p.is_refresh) not_refresh
    check_blacklist env token
    use_up env token (seconds_left env.now p.exp)
    u ← or_throw (← find_user env p.sub) user_not_found
    pure (access_token env p.sub)

  -- The `try` of `logout`; a token that does not verify is written with a time of its own.
  abbrev blacklist_verified : Env → ℕ → Option TokenPayload → Act (Unit {0})
  blacklist_verified env token none s = set_blacklist env token fallback_ttl s
  blacklist_verified env token (some p) s =
      if ltb 0 (seconds_left env.now p.exp)
      then set_blacklist env token (seconds_left env.now p.exp) s
      else (ok tt, s)

  -- `logout`, which always says that it has succeeded.
  unfoldable pub logout : Env → ℕ → Tables → Tables
  logout env token s =
      if config.has_redis
      then (blacklist_verified env token (Jwt.verify J env.now config.jwt_secret token) s).1
      else s

  -- `buildAuthResponse`
  abbrev pub build_auth_response : Env → ℕ → Bool → AuthResponse
  build_auth_response env user is_new = record {
    is_new_user = is_new;
    user_id = user;
    access_token = access_token env user;
    refresh_token =
        Jwt.sign J env.now config.jwt_refresh_secret user true config.refresh_expires_in;
  }
