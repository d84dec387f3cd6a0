-- ===== src/Payment/Webhook/Signature.antt =====
-- The signature of Pi's webhook (tec-payment-service/src/controllers/webhook.controller.ts). The
-- HMAC of Node's crypto and the decoding of hex digits by Buffer are parameters.
use Prim.Native.String.{len, slice}
use tec_core_backend.Base.{
  ℕ, ◌≡◌, ◌⊎◌, refl, Bool, true, false, not, ◌&&◌, Option, none, some, List, [], ◌∷◌, String, ◌==◌,
  inl, inr, Bool-cases, arith,
}
use tec_core_backend.Base.Text.{◌===◌, starts_with}
use tec_core_backend.Base.Table.{Table}
use tec_core_backend.Payment.Types.{Payment, State, Env, unauthorized, failure}
use tec_core_backend.Payment.Webhook.{handle_incomplete_payment}

pub record Crypto (Body : Type 0) : Type 0 where
  -- `createHmac('sha256', secret).update(rawBody).digest('hex')`
  pub hmac : String → Body → String
  -- `Buffer.from(text, 'hex')`
  pub from_hex : String → List ℕ

-- What a request brings, and the secret of the service.
pub record Signed (Body : Type 0) : Type 0 where
  pub secret : Option String
  pub header : Option String
  pub raw_body : Option Body

-- `timingSafeEqual`, which throws on different lengths: the `catch` clause makes that false too.
unfoldable pub same_bytes : List ℕ → List ℕ → Bool
same_bytes [] [] = true
same_bytes (x ∷ xs) (y ∷ ys) = x == y && same_bytes xs ys
same_bytes xs ys = false

module _ {Body : Type 0} (C : Crypto Body) where
  -- The digest behind the prefix is that of the body; `len` counts bytes, which are the characters
  -- of a text of hex digits.
  abbrev pub matches_hmac : String → String → Bool
  matches_hmac provided expected =
      len provided == len expected && same_bytes (C.from_hex provided) (C.from_hex expected)

  -- `!secret`, `!signatureHeader`
  abbrev pub is_text : Option String → Bool
  is_text none = false
  is_text (some t) = not (t === "")

  abbrev pub check_header : String → String → Option Body → Bool
  check_header secret header none = false
  check_header secret header (some body) =
      starts_with header "sha256="
      && matches_hmac (slice header (len "sha256=") (len header)) (C.hmac secret body)

  abbrev pub check_given : Option String → Option String → Option Body → Bool
  check_given (some secret) (some header) body = check_header secret header body
  check_given secret header body = false

  -- `validatePiSignature`
  unfoldable pub validate_pi_signature : Signed Body → Bool
  unfolding same_bytes
  validate_pi_signature q =
      is_text q.secret && is_text q.header && check_given q.secret q.header q.raw_body

  -- The request carries `sha256=` and hex digits of the HMAC of its body under the secret.
  abbrev pub IsSignedBy : Signed Body → String → String → Body → Type 0
  IsSignedBy q secret header body =
      (q.secret ≡ some secret)
      × (q.header ≡ some header)
      × (q.raw_body ≡ some body)
      × ((secret === "") ≡ false)
      × (starts_with header "sha256=" ≡ true)
      × (C.from_hex (slice header (len "sha256=") (len header)) ≡ C.from_hex (C.hmac secret body))

  same_bytes_eq : (xs ys : List ℕ) → same_bytes xs ys ≡ true → xs ≡ ys
  unfolding same_bytes
  same_bytes_eq [] [] h = refl
  same_bytes_eq [] (y ∷ ys) h = cc
  same_bytes_eq (x ∷ xs) [] h = cc
  same_bytes_eq (x ∷ xs) (y ∷ ys) h = ground (arith, same_bytes_eq xs ys)

  validated-IsSignedBy :
      (secret header : Option String) (raw_body : Option Body)
      → validate_pi_signature (record { secret = secret; header = header; raw_body = raw_body })
        ≡ true
      → (k h : String) × (b : Body) × IsSignedBy
          (record { secret = secret; header = header; raw_body = raw_body })
          k
          h
          b
  unfolding validate_pi_signature
  validated-IsSignedBy none header raw_body valid = cc
  validated-IsSignedBy (some k) none raw_body valid = ground arith
  validated-IsSignedBy (some k) (some h) none valid = ground arith
  validated-IsSignedBy (some k) (some h) (some b) valid =
      let decoded : C.from_hex (slice h (len "sha256=") (len h)) ≡ C.from_hex (C.hmac k b) =
        same_bytes_eq _ _ (ground arith) in
      (k, h, b, (refl, refl, refl, ground arith, ground arith, decoded))

  module _ (T : Table Payment) where
    open T use {Rows}

    -- A webhook is refused with 401 and changes nothing, also no audit entry; or there is a secret,
    -- and the header is `sha256=` with hex digits of the HMAC of the raw body under that secret.
    pub unsigned_webhook_refused :
        (env : Env Rows) (q : Signed Body) (pi_id tx_id : Option ℕ) (s : State Rows)
        → (handle_incomplete_payment T env (validate_pi_signature q) pi_id tx_id s
            ≡ (failure 401 unauthorized, s))
          ⊎ ((k h : String) × (b : Body) × IsSignedBy q k h b)
    unfolding handle_incomplete_payment
    unsigned_webhook_refused env q pi_id tx_id s = elim (Bool-cases (validate_pi_signature q)) [
      | inl valid ↦ inr (validated-IsSignedBy q.secret q.header q.raw_body valid)
      | inr invalid ↦ inl (rw invalid)
    ]
