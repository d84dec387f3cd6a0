-- ===== src/Tokens.antt =====
-- The check of tokens of tec-wallet-service/src/middlewares/jwt.middleware.ts, which the payment
-- service repeats (src/middlewares/jwt.middleware.ts there, and shared/src/middleware).
use tec_core_backend.Base.{ℕ, Bool, true, false, Option, none, some, String, if◌then◌else◌}
use tec_core_backend.Base.Text.{◌===◌}

-- `TokenPayload`
pub record TokenPayload : Type 0 where
  pub sub : Option String
  pub id : Option String
  pub user_id : Option String

-- What the check meets outside this code.
pub record TokenEnv : Type 0 where
  -- `JWT_SECRET`, none if missing or empty.
  pub jwt_secret : Option String
  -- The text after `Bearer `, if the header starts so.
  pub bearer : String → Option String
  -- The `alg` that `decodeHeader` finds.
  pub algorithm : String → Option String
  -- `jwt.verify`, none if it throws.
  pub verify : String → String → Option TokenPayload

pub data Identity : Type 0 where
  signed_in : String → Identity
  stranger : ℕ → String → Identity

abbrev pub rejected : Identity
rejected = stranger 401 "AUTHENTICATION_ERROR"

-- `a ?? b`
abbrev pub or_other : Option String → Option String → Option String
or_other none b = b
or_other (some a) b = some a

-- `if (!userId)`
abbrev pub signed : Option String → Identity
signed none = rejected
signed (some u) = if u === "" then rejected else signed_in u

abbrev pub verified_user : Option TokenPayload → Identity
verified_user none = rejected
verified_user (some p) = signed (or_other p.sub (or_other p.id p.user_id))

abbrev pub check_signature : TokenEnv → String → Option String → Identity
check_signature env token none = rejected
check_signature env token (some alg) =
    if alg === "HS256"
    then elim env.jwt_secret [
      | none ↦ stranger 500 "INTERNAL_ERROR"
      | some secret ↦ verified_user (env.verify token secret)
    ]
    else rejected

abbrev pub check_bearer : TokenEnv → Option String → Identity
check_bearer env none = rejected
check_bearer env (some token) = check_signature env token (env.algorithm token)

-- `authenticate`
unfoldable pub authenticate : TokenEnv → Option String → Identity
authenticate env none = rejected
authenticate env (some header) = check_bearer env (env.bearer header)

unfoldable pub is_signed_in : Identity → Bool
is_signed_in (signed_in u) = true
is_signed_in (stranger status code) = false
