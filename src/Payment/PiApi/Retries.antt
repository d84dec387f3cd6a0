-- ===== src/Payment/PiApi/Retries.antt =====
-- How often the client asks the Pi API, and how long it waits.
use mathlib.Core.Path.{subst}
use native.Mathlib.Nat.{pow-suc, add-zero}
use native.Mathlib.Numerals.{add-one}
use tec_core_backend.Base.{
  ℕ, zero, suc, ◌+◌, ◌*◌, ◌-◌, ◌^◌, ◌<◌, ◌≡◌, refl, ap, ◌↔◌, inl, inr, ◌⊎◌, arith,
}
use tec_core_backend.Payment.PiApi.{
  Net, Verdict, done, refuse, retry, judge, Ending, answered, exhausted, ErrorType, network, delay,
  attempts,
}

Verdict-cases : (v : Verdict) → (v ≡ done) ⊎ ((v ≡ refuse) ⊎ ((k : ErrorType) × (v ≡ retry k)))
Verdict-cases done = inl refl
Verdict-cases refuse = inr (inl refl)
Verdict-cases (retry k) = inr (inr (k, refl))

-- The attempts `first`, ..., `first + n - 1` all met something worth a retry.
abbrev pub AllRetried : Net → ℕ → ℕ → Type 0
AllRetried net first zero = Unit
AllRetried net first (suc n) =
    ((k : ErrorType) × (judge (net.fetch first) ≡ retry k)) × AllRetried net (first + 1) n

answered_sound :
    (net : Net) (left first : ℕ) (last : ErrorType) (slept : ℕ)
    → (attempts net left first last slept).0 ≡ answered
    → (n : ℕ) × (n < left) × AllRetried net first n × (judge (net.fetch (first + n)) ≡ done)
unfolding attempts
answered_sound net zero first last slept e = cc
answered_sound net (suc left) first last slept e = elim (Verdict-cases (judge (net.fetch first))) [
  | inl d ↦ (0, omega arith, tt, rw add-zero d)
  | inr (inl r) ↦ absurd (cc (rw (r, attempts) at e))
  | inr (inr (k, r)) ↦
      let (n, lt, all, d) =
        answered_sound net left (first + 1) k (slept + delay net.max_retries first)
          (rw (r, attempts) at e) in
      let next : first + suc n ≡ first + 1 + n = omega arith in
      (suc n, omega arith, ((k, r), all), rw next d)
]

answered_complete :
    (net : Net) (left first : ℕ) (last : ErrorType) (slept n : ℕ)
    → n < left
    → AllRetried net first n
    → judge (net.fetch (first + n)) ≡ done
    → (attempts net left first last slept).0 ≡ answered
unfolding attempts
answered_complete net zero first last slept n lt all d = elim lt [ ]
answered_complete net (suc left) first last slept zero lt all d =
    let here : judge (net.fetch first) ≡ done = rw add-zero at d in rw (here, attempts) refl
answered_complete net (suc left) first last slept (suc n) lt ((k, r), all) d =
    let next : first + suc n ≡ first + 1 + n = omega arith in
    rw (r, attempts)
      (answered_complete net left (first + 1) k (slept + delay net.max_retries first) n
        (omega arith) all (rw next at d))

-- The loop answers exactly when some attempt within the bound is answered and every one before it
-- met something worth a retry.
pub attempts-answered_iff :
    (net : Net) (left first : ℕ) (last : ErrorType) (slept : ℕ)
    → ((attempts net left first last slept).0 ≡ answered)
      ↔ ((n : ℕ) × (n < left) × AllRetried net first n × (judge (net.fetch (first + n)) ≡ done))
attempts-answered_iff net left first last slept = (
  answered_sound net left first last slept,
  λ h. answered_complete net left first last slept h.0 h.1 h.2 h.3,
)

delay_last : (m : ℕ) → delay m m ≡ 0
unfolding delay
delay_last m = ground arith

delay_before_last : (m a : ℕ) → suc a < m → delay m (suc a) ≡ 500 * 2 ^ a
unfolding delay
delay_before_last m a h = let same : suc a - 1 ≡ a = omega arith in rw same (ground arith)

doubled : (a : ℕ) → 2 ^ suc a ≡ 2 * 2 ^ a
doubled a = rw pow-suc (omega arith)

exhausted_slept :
    (net : Net) (l a : ℕ) (last k : ErrorType) (slept w : ℕ)
    → suc a + l ≡ net.max_retries
    → attempts net (suc l) (suc a) last slept ≡ (exhausted k, w)
    → w + 500 * 2 ^ a ≡ slept + 500 * 2 ^ (a + l)
unfolding attempts
exhausted_slept net zero a last k slept w m e = elim (Verdict-cases (judge (net.fetch (suc a)))) [
  | inl d ↦ absurd (cc (rw (d, attempts) at e))
  | inr (inl r) ↦ absurd (cc (rw (r, attempts) at e))
  | inr (inr (j, r)) ↦
      let here : ◌≡◌ {A = Ending × ℕ} (exhausted j, slept + delay net.max_retries (suc a))
          (exhausted k, w) =
        rw (r, attempts) at e in
      let at_end : suc a ≡ net.max_retries = omega arith in
      let none_slept : delay net.max_retries (suc a) ≡ 0 = rw at_end (delay_last net.max_retries) in
      let same : a + 0 ≡ a = omega arith in
      let ended : slept + delay net.max_retries (suc a) ≡ w = ap (λ p. p.1) here in
      rw same (omega arith)
]
exhausted_slept net (suc l) a last k slept w m e =
    elim (Verdict-cases (judge (net.fetch (suc a)))) [
      | inl d ↦ absurd (cc (rw (d, attempts) at e))
      | inr (inl r) ↦ absurd (cc (rw (r, attempts) at e))
      | inr (inr (j, r)) ↦
          let onwards : attempts net (suc l) (suc a + 1) j (slept + delay net.max_retries (suc a))
              ≡ (exhausted k, w) =
            rw (r, attempts) at e in
          let rest =
            exhausted_slept net l (suc a) j k (slept + delay net.max_retries (suc a)) w
              (omega arith) (rw add-one at onwards) in
          let same : a + suc l ≡ suc a + l = omega arith in
          rw same
            (omega (arith, rest, doubled a, delay_before_last net.max_retries a (omega arith)))
    ]

-- A call that uses up its attempts has slept 500 * (2^(MAX_RETRIES - 1) - 1) milliseconds in all:
-- the delay doubles after each attempt, and there is none after the last.
pub exhausted_backoff :
    (net : Net) (n : ℕ) (k : ErrorType) (slept : ℕ)
    → net.max_retries ≡ suc n
    → attempts net net.max_retries 1 network 0 ≡ (exhausted k, slept)
    → slept + 500 ≡ 500 * 2 ^ n
exhausted_backoff net n k slept m e =
    let e' : attempts net (suc n) 1 network 0 ≡ (exhausted k, slept) =
      subst (λ (b : ℕ). attempts net b 1 network 0 ≡ (exhausted k, slept)) m e in
    let same : 0 + n ≡ n = omega arith in
    let paid = exhausted_slept net n 0 network k 0 slept (omega arith) e' in
    omega (arith, rw same at paid)
