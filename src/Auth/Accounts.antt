-- ===== src/Auth/Accounts.antt =====
-- The accounts of tec-auth-service/src/modules/auth/auth.service.ts: how users are made and get their tokens.
use tec_core_backend.Base.{
  ℕ, Bool, true, false, not, ◌&&◌, ◌||◌, Option, none, some, ◌∷◌, is_some, if◌then◌else◌,
}
use tec_core_backend.Base.Action.{ok, ◌>>=◌, ◌>>◌, pure, or_throw, throw_if, modify}
use tec_core_backend.Base.Table.{Table}
use tec_core_backend.Auth.{
  User, Jwt, Blacklist, Config, Env, at_find, at_upsert, at_create, at_stream, bad_request,
  conflict, invalid_token, invalid_credentials, invalid_pi_token, user_not_found, AuthResponse,
  RegisterDto, LoginDto, has_pi_uid, has_email, Tables, Act, attempt, find_user,
  build_auth_response,
}

module _ (J : Jwt) (B : Blacklist) (T : Table User) (config : Config) where
  -- `user.findUnique` by a unique column, and `user.findFirst`.
  abbrev find_by : Env → (User → Bool) → Act J B T config (Option (ℕ × User))
  find_by env p s = (attempt J B T config env at_find >> pure (Table.find_first T p s.users)) s

  abbrev create_user : User → Act J B T config ℕ
  create_user u s = let (id, rows) = Table.create T u s.users in (ok id, record s { users = rows })

  -- `user.upsert`: the id, and whether the user is new.
  abbrev upsert_user : Env → ℕ → ℕ → Option (ℕ × User) → Act J B T config ℕ
  upsert_user env uid username none = do
    attempt J B T config env at_upsert
    create_user (record {
      email = none;
      password_hash = none;
      pi_uid = some uid;
      pi_username = some username;
    })
  upsert_user env uid username (some e) = do
    attempt J B T config env at_upsert
    modify (λ (s : Tables J B T config). record s {
      users = Table.update T e.0 (λ (u : User). record u { pi_username = some username }) s.users;
    })
    pure e.0

  -- `user.created`, whose failure is only logged.
  abbrev emit_created : Env → Bool → ℕ → Act J B T config (Unit {0})
  emit_created env is_new user = modify (λ (s : Tables J B T config).
      if is_new && (config.has_redis && not (env.has_fault at_stream))
      then record s { events = user ∷ s.events }
      else s)

  -- `piLogin`
  unfoldable pub pi_login : Env → Option ℕ → Act J B T config AuthResponse
  pi_login env token = do
    t ← or_throw token bad_request
    me ← or_throw (env.pi_me t) invalid_pi_token
    existing ← find_by env (has_pi_uid (some me.0))
    id ← upsert_user env me.0 me.1 existing
    emit_created env (not (is_some existing)) id
    pure (build_auth_response J B T config env id (not (is_some existing)))

  -- The conditions of `register`, joined by OR.
  abbrev is_same_user : RegisterDto → User → Bool
  is_same_user dto u = has_email dto.email u || has_pi_uid dto.pi_uid u

  abbrev hashed : Env → Option ℕ → Option ℕ
  hashed env none = none
  hashed env (some password) = some (env.hash password)

  -- `register`
  unfoldable pub register : Env → RegisterDto → Act J B T config AuthResponse
  register env dto = do
    throw_if (not (is_some dto.email) && not (is_some dto.pi_uid)) bad_request
    existing ← find_by env (is_same_user dto)
    throw_if (is_some existing) conflict
    attempt J B T config env at_create
    id ← create_user (record {
      email = dto.email;
      password_hash = hashed env dto.password;
      pi_uid = dto.pi_uid;
      pi_username = dto.pi_username;
    })
    pure (build_auth_response J B T config env id true)

  abbrev has_password : Env → Option ℕ → User → Bool
  has_password env none u = false
  has_password env (some password) u = elim u.password_hash [
    | none ↦ false
    | some h ↦ env.compare password h
  ]

  -- `login` without a Pi UID.
  abbrev login_by_email : Env → LoginDto → Act J B T config AuthResponse
  login_by_email env dto = do
    throw_if (not (is_some dto.email && is_some dto.password)) bad_request
    e ← or_throw (← find_by env (has_email dto.email)) invalid_credentials
    throw_if (not (has_password env dto.password e.1)) invalid_credentials
    pure (build_auth_response J B T config env e.0 false)

  abbrev login_by_pi_uid : Env → ℕ → Act J B T config AuthResponse
  login_by_pi_uid env uid = do
    e ← or_throw (← find_by env (has_pi_uid (some uid))) user_not_found
    pure (build_auth_response J B T config env e.0 false)

  -- `login`
  unfoldable pub login : Env → LoginDto → Act J B T config AuthResponse
  login env dto s = elim dto.pi_uid [
    | none ↦ login_by_email env dto s
    | some uid ↦ login_by_pi_uid env uid s
  ]

  -- `validateToken` and `getMe`
  unfoldable pub get_me : Env → ℕ → Act J B T config (ℕ × User)
  get_me env token = do
    p ← or_throw (Jwt.verify J env.now config.jwt_secret token) invalid_token
    u ← or_throw (← find_user J B T config env p.sub) user_not_found
    pure (p.sub, u)
