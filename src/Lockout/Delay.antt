-- ===== src/Lockout/Delay.antt =====
-- The progressive delay in closed form (loginThrottleDelay).
use vault.Common.{
  ℕ, zero, suc, ◌-◌, ◌*◌, ◌^◌, ◌≤◌, ◌<◌, ◌≡◌, refl, arith, leb, if◌then◌else◌, min, Bool-cases, inl,
  inr, ◌∙◌, ap, sym,
}
use native.Mathlib.Nat.{mul-le-mul_left, mul_assoc}
use vault.Lockout.{
  login_throttle_base, login_throttle_max, lockout_threshold, doubled, login_throttle_delay,
}

pow-pos : (k : ℕ) → 1 ≤ 2 ^ k
pow-pos zero = omega arith
pow-pos (suc k) = omega (arith, pow-pos k)

shift : (k d : ℕ) → d * 2 ^ suc k ≡ d * 2 * 2 ^ k
shift k d = ap (λ p. d * p) (omega arith) ∙ sym (mul_assoc d 2 (2 ^ k))

doubled-min : (k d : ℕ) → d < login_throttle_max → doubled k d ≡ min (d * 2 ^ k) login_throttle_max
doubled-min zero d h = ground arith
doubled-min (suc k) d h = elim (Bool-cases (leb login_throttle_max (d * 2))) [
  | inl b ↦ ground (arith, mul-le-mul_left (d * 2) (pow-pos k), shift k d)
  | inr b ↦ rw (shift k d) (ground (arith, doubled-min k (d * 2) (ground arith)))
]

-- The delay is nothing up to the lockout threshold, and past it doubles with every failure from the
-- base up to the maximum.
login_throttle_delay-closed :
    (failures : ℕ)
    → login_throttle_delay failures ≡ (
        if leb failures lockout_threshold
        then 0
        else min (login_throttle_base * 2 ^ (failures - 6)) login_throttle_max)
unfolding login_throttle_delay
login_throttle_delay-closed failures =
    rw (doubled-min (failures - 6) login_throttle_base (omega arith)) refl
