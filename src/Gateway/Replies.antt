-- ===== src/Gateway/Replies.antt =====
-- The bodies that the gateway answers with by itself (tec-api-gateway/src/main.ts and
-- tec-api-gateway/src/middleware/jwt-auth.ts).
use tec_core_backend.Base.{ℕ}

pub data Code : Type 0 where
  unauthorized invalid_token token_expired_code internal_error forbidden rate_limited bad_gateway
        not_found :
      Code

-- The bodies of the gateway's own answers.
pub data Body : Type 0 where
  health_body : ℕ → Body
  ready_body : Body
  stats_body : ℕ → Body
  error_body : Code → Body
