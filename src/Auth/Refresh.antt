-- ===== src/Auth/Refresh.antt =====
-- How often a refresh token is good, by tec-auth-service/src/modules/auth/auth.service.ts.
use tec_core_backend.Base.{
  ℕ, ◌+◌, ◌-◌, ◌<◌, ◌≤◌, Bool, true, false, none, some, List, [], ◌∷◌, ◌==◌, ◌≡◌, subst, ==_iff,
  All, Bool-cases, Option-cases, inl, inr, arith,
}
use tec_core_backend.Base.Action.{Result, ok, err}
use tec_core_backend.Base.Table.{Table}
use tec_core_backend.Auth.{
  User, Site, at_get, at_setex, at_find, fallback_ttl, TokenPayload, Jwt, Blacklist, Config, Env,
  Thrown, Tables, refresh_token, logout,
}

pub data Request : Type 0 where
  refresh_request : Env → ℕ → Request
  logout_request : Env → ℕ → Request

-- A request at or before the given time, that does not log out with the token.
abbrev pub IsBefore : ℕ → ℕ → Request → Type 0
IsBefore later token (refresh_request env t) = env.now ≤ later
IsBefore later token (logout_request env t) = (env.now ≤ later) × ((token == t) ≡ false)

abbrev pub is_ok : {A : Type 0} → Result Thrown A → Bool
is_ok (ok a) = true
is_ok (err e) = false

module _ (J : Jwt) (B : Blacklist) (T : Table User) (config : Config) where
  open B use {has_key, has_key_before, has_key-set_key}

  unfoldable pub run_request : Request → Tables J B T config → Tables J B T config
  run_request (refresh_request env t) s = (refresh_token J B T config env t s).1
  run_request (logout_request env t) s = logout J B T config env t s

  unfoldable pub run_requests : List Request → Tables J B T config → Tables J B T config
  run_requests [] s = s
  run_requests (q ∷ qs) s = run_requests qs (run_request q s)

  request-blacklisted :
      (q : Request) (later token : ℕ) (s : Tables J B T config)
      → config.has_redis ≡ true
      → IsBefore later token q
      → has_key later token s.blacklist ≡ true
      → has_key later token (run_request q s).blacklist ≡ true
  unfolding run_request refresh_token logout
  request-blacklisted (refresh_request env t) later token s redis le h =
      elim (Bool-cases (token == t)) [
        | inl same ↦
            let used : has_key env.now t s.blacklist ≡ true =
              subst (λ x. has_key env.now x s.blacklist ≡ true) ((==_iff token t).0 same)
                (has_key_before env.now later token s.blacklist le h) in
            ground (arith, used, redis, h)
        | inr other ↦
            grind (arith, λ (ttl : ℕ). has_key-set_key env.now later ttl token t s.blacklist)
      ]
  request-blacklisted (logout_request env t) later token s redis (le, other) h =
      grind (arith, λ (ttl : ℕ). has_key-set_key env.now later ttl token t s.blacklist)

  run_requests-blacklisted :
      (qs : List Request) (later token : ℕ) (s : Tables J B T config)
      → config.has_redis ≡ true
      → All (IsBefore later token) qs
      → has_key later token s.blacklist ≡ true
      → has_key later token (run_requests qs s).blacklist ≡ true
  unfolding run_requests
  run_requests-blacklisted [] later token s redis les h = h
  run_requests-blacklisted (q ∷ qs) later token s redis (le, les) h =
      run_requests-blacklisted qs later token (run_request q s) redis les
        (request-blacklisted q later token s redis le h)

  refused_used :
      (env : Env) (token : ℕ) (s : Tables J B T config)
      → config.has_redis ≡ true
      → has_key env.now token s.blacklist ≡ true
      → is_ok (refresh_token J B T config env token s).0 ≡ false
  unfolding refresh_token
  refused_used env token s redis used = ground arith

  refused_invalid :
      (env : Env) (token : ℕ) (s : Tables J B T config)
      → Jwt.verify J env.now config.jwt_refresh_secret token ≡ none
      → is_ok (refresh_token J B T config env token s).0 ≡ false
  unfolding refresh_token
  refused_invalid env token s bad = ground arith

  refresh-blacklists :
      (env : Env) (later token e : ℕ) (p : TokenPayload) (s : Tables J B T config)
      → config.has_redis ≡ true
      → Jwt.verify J env.now config.jwt_refresh_secret token ≡ some p
      → p.exp ≡ some e
      → env.now < e
      → later < e
      → is_ok (refresh_token J B T config env token s).0 ≡ true
      → has_key later token (refresh_token J B T config env token s).1.blacklist ≡ true
  unfolding refresh_token
  refresh-blacklists env later token e p s redis good expires live lt done =
      grind (arith, has_key-set_key env.now later (e - env.now) token token s.blacklist)

  -- With Redis: once a refresh token that expires has been good for an access token, every later refresh
  -- with it is refused, whatever requests come in between and whatever calls of Redis or of the
  -- database fail, as long as nobody logs out with that token.
  pub refresh_once :
      (env later : Env) (token e : ℕ) (p : TokenPayload) (s : Tables J B T config)
      (qs : List Request)
      → config.has_redis ≡ true
      → Jwt.verify J env.now config.jwt_refresh_secret token ≡ some p
      → p.exp ≡ some e
      → is_ok (refresh_token J B T config env token s).0 ≡ true
      → All (IsBefore later.now token) qs
      → is_ok
          (refresh_token J B T config later token
            (run_requests qs (refresh_token J B T config env token s).1)).0
        ≡ false
  refresh_once env later token e p s qs redis good expires done les =
      elim (Option-cases (Jwt.verify J later.now config.jwt_refresh_secret token)) [
        | inl bad ↦
            refused_invalid later token (run_requests qs (refresh_token J B T config env token s).1)
              bad
        | inr (q, again) ↦
            let same : p ≡ q =
              Jwt.verify_same J env.now later.now config.jwt_refresh_secret token p q good again in
            let live : later.now < e =
              Jwt.verify_expires J later.now config.jwt_refresh_secret token e q again
                (subst (λ (x : TokenPayload). x.exp ≡ some e) same expires) in
            refused_used later token (run_requests qs (refresh_token J B T config env token s).1)
              redis
              (run_requests-blacklisted qs later.now token
                (refresh_token J B T config env token s).1 redis les
                (refresh-blacklists env later.now token e p s redis good expires
                  (Jwt.verify_expires J env.now config.jwt_refresh_secret token e p good expires)
                  live done))
      ]

  -- With Redis, and where its calls and those of the database work: after a logout with a refresh token
  -- that does not verify with the secret of access tokens, the token is refused for one day only;
  -- then it is good again if it has not expired and its user exists, even if it had been used or
  -- revoked before that logout.
  pub logout_revives :
      (out later : Env) (token : ℕ) (p : TokenPayload) (u : User) (s : Tables J B T config)
      → config.has_redis ≡ true
      → Jwt.verify J out.now config.jwt_secret token ≡ none
      → out.has_fault at_setex ≡ false
      → out.now + fallback_ttl ≤ later.now
      → Jwt.verify J later.now config.jwt_refresh_secret token ≡ some p
      → p.is_refresh ≡ true
      → ((site : Site) → later.has_fault site ≡ false)
      → Table.find T p.sub s.users ≡ some u
      → is_ok (refresh_token J B T config later token (logout J B T config out token s)).0 ≡ true
  unfolding refresh_token logout
  logout_revives out later token p u s redis other works le good kind calm here = ground (
    arith,
    has_key-set_key out.now later.now fallback_ttl token token s.blacklist,
    calm at_get,
    calm at_setex,
    calm at_find,
  )
