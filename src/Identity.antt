-- ===== src/Identity.antt =====
-- The identity service: tec-identity-service/src/modules/identity/identity.service.ts, the endpoints of
-- identity.controller.ts, and the handler of user-created.consumer.ts. Ids of Pi are numbers, since they are
-- only compared.
use tec_core_backend.Base.{
  ℕ, Bool, true, false, ◌||◌, Option, none, some, List, [], ◌∷◌, String, ◌==◌, is_some,
  if◌then◌else◌,
}
use tec_core_backend.Base.Action.{
  Result, ok, err, Action, ◌>>=◌, ◌>>◌, pure, or_throw, throw_if, modify, get,
}
use tec_core_backend.Base.Table.{Table}
use tec_core_backend.Base.Text.{◌===◌}
pub mod Users
mod Examples

pub record Profile : Type 0 where
  pub display_name : Option String
  pub bio : Option String
  pub country : Option String
  pub language : String
  pub avatar_url : Option String

pub data KycStatus : Type 0 where
  kyc_pending kyc_verified kyc_rejected : KycStatus

pub data KycLevel : Type 0 where
  level_1 level_2 level_3 : KycLevel

-- A row with its profile, its KYC record and the names of its roles.
pub record User : Type 0 where
  pub pi_user_id : ℕ
  pub username : String
  pub profile : Option Profile
  pub kyc : Option (KycStatus × KycLevel)
  pub roles : List String

pub data Site : Type 0 where
  at_find at_create at_find_id at_upsert : Site

-- A failing call of the database, a value that is taken in a unique column, and the exceptions of
-- the service and the controller.
pub data Thrown : Type 0 where
  db unique_violation not_found unauthorized : Thrown

pub record Env : Type 0 where
  pub has_fault : Site → Bool

-- What a token that verifies may hold.
pub record Claims : Type 0 where
  pub sub : Option ℕ
  pub pi_uid : Option ℕ
  pub pi_id : Option ℕ
  pub pi_user_id : Option ℕ
  pub pi_username : Option String
  pub username : Option String
  pub pi_username_camel : Option String

-- `a ?? b`
abbrev pub or_else : {A : Type 0} → Option A → Option A → Option A
or_else none b = b
or_else (some a) b = some a

abbrev pub or_text : Option String → String → String
or_text none b = b
or_text (some a) b = a

-- The argument of `findOrCreateUser`. Prisma throws if `piUserId` is missing.
pub record NewUser : Type 0 where
  pub pi_user_id : Option ℕ
  pub username : String

-- `getUserIdAndInfo`
abbrev pub user_info : Claims → NewUser
user_info c = record {
  pi_user_id = or_else c.pi_uid (or_else c.pi_id (or_else c.pi_user_id c.sub));
  username = or_text c.pi_username (or_text c.username (or_text c.pi_username_camel "unknown"));
}

-- The body of `PATCH /identity/profile`.
pub record ProfileBody : Type 0 where
  pub display_name : Option String
  pub bio : Option String
  pub country : Option String
  pub language : Option String
  pub avatar_url : Option String

-- `...(value && { column: value })`
unfoldable pub given : Option String → Option String → Option String
given none old = old
given (some s) old = if s === "" then old else some s

unfoldable pub given_text : Option String → String → String
given_text none old = old
given_text (some s) old = if s === "" then old else s

-- `upsert` of `updateProfile`
abbrev pub upserted : ProfileBody → Option Profile → Profile
upserted body none = record {
  display_name = body.display_name;
  bio = body.bio;
  country = body.country;
  language = or_text body.language "en";
  avatar_url = body.avatar_url;
}
upserted body (some p) = record {
  display_name = given body.display_name p.display_name;
  bio = given body.bio p.bio;
  country = given body.country p.country;
  language = given_text body.language p.language;
  avatar_url = given body.avatar_url p.avatar_url;
}

abbrev pub new_user : ℕ → String → User
new_user pi name = record {
  pi_user_id = pi;
  username = name;
  profile = some (record {
    display_name = some name;
    bio = none;
    country = none;
    language = "en";
    avatar_url = none;
  });
  kyc = some (kyc_pending, level_1);
  roles = "USER" ∷ [];
}

abbrev pub has_pi : ℕ → User → Bool
has_pi pi u = u.pi_user_id == pi

-- The row has a value of a unique column.
abbrev pub is_taken_by : ℕ → String → User → Bool
is_taken_by pi name u = u.pi_user_id == pi || u.username === name

abbrev pub with_profile : ProfileBody → User → User
with_profile body u = record u { profile = some (upserted body u.profile) }

module _ (T : Table User) where
  open T use {Rows, find, find_first, update, create}

  abbrev pub Act : Type 0 → Type 0
  Act A = Action Rows Thrown A

  abbrev pub attempt : Env → Site → Act (Unit {0})
  attempt env site = throw_if (env.has_fault site) db

  unfoldable pub insert_user : Env → ℕ → String → Act (ℕ × User)
  insert_user env pi name = do
    attempt env at_create
    t ← get
    throw_if (is_some (find_first (is_taken_by pi name) t)) unique_violation
    let (id, t') = create (new_user pi name) t
    modify (λ (x : Rows). t')
    pure (id, new_user pi name)

  abbrev pub existing_or_new : Option (ℕ × User) → Act (ℕ × User) → Act (ℕ × User)
  existing_or_new (some e) m = pure e
  existing_or_new none m = m

  -- `findOrCreateUser`
  unfoldable pub find_or_create_user : Env → NewUser → Act (ℕ × User)
  find_or_create_user env dto = do
    attempt env at_find
    pi ← or_throw dto.pi_user_id db
    t ← get
    existing_or_new (find_first (has_pi pi) t) (insert_user env pi dto.username)

  -- `updateProfile`
  unfoldable pub update_profile : Env → ℕ → ProfileBody → Act Profile
  update_profile env id body = do
    attempt env at_find_id
    t ← get
    u ← or_throw (find id t) not_found
    attempt env at_upsert
    modify (λ (x : Rows). update id (with_profile body) x)
    pure (upserted body u.profile)

  -- `getMe`, `getProfile`, `getRoles` and `getKyc` of the controller; none is a token that does not
  -- verify.
  unfoldable pub get_me : Env → Option Claims → Act (ℕ × User)
  get_me env claims = do c ← or_throw claims unauthorized; find_or_create_user env (user_info c)

  -- `updateProfile` of the controller.
  unfoldable pub patch_profile : Env → Option Claims → ProfileBody → Act Profile
  patch_profile env claims body = do
    c ← or_throw claims unauthorized
    e ← find_or_create_user env (user_info c)
    update_profile env e.0 body
