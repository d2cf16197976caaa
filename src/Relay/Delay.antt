-- ===== src/Relay/Delay.antt =====
-- Proofs about the relay's backoff (src/control/kv_relay.rs).
use muna_server.Base.{ℕ, zero, suc, ◌*◌, ◌^◌, ◌≤◌, ◌≡◌, min, refl, ◌⊎◌, inl, inr, arith}
use native.Mathlib.Decide.{dec_lt}
use muna_server.Relay.{retry_delay_first, retry_delay_max, retry_delay}

pow_positive : (n : ℕ) → 1 ≤ 2 ^ n
pow_positive zero = omega arith
pow_positive (suc n) = omega (arith, pow_positive n)

pow-min :
    (n : ℕ)
    → (2 ^ min (suc n) 16 ≡ 2 * 2 ^ min n 16)
      ⊎ ((2 ^ min n 16 ≡ 2 ^ 16) × (2 ^ min (suc n) 16 ≡ 2 ^ 16))
pow-min n = elim (dec_lt n 16) [
  | yes small ↦
      let e : min n 16 ≡ n = omega arith in
      let f : min (suc n) 16 ≡ suc n = omega arith in inl (rw (e, f) (omega arith))
  | no large ↦
      let e : min n 16 ≡ 16 = omega arith in
      let f : min (suc n) 16 ≡ 16 = omega arith in inr (rw e refl, rw f refl)
]

-- After any number of failures the backoff is at least five seconds and at most five minutes, and one
-- more failure doubles it, up to those five minutes.
pub retry_delay-doubles :
    (n : ℕ)
    → (retry_delay_first ≤ retry_delay n)
      × (retry_delay n ≤ retry_delay_max)
      × (retry_delay (suc n) ≡ min (2 * retry_delay n) retry_delay_max)
unfolding retry_delay
retry_delay-doubles n =
    let p = pow_positive (min n 16) in
    elim (pow-min n) [
      | inl twice ↦ (omega arith, omega arith, omega arith)
      | inr (same, full) ↦ (omega arith, omega arith, omega arith)
    ]
