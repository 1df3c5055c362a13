-- ===== src/Dns/Handler/Rtt.antt =====
-- core/dns/handler.go: the running average of the round-trip times.
use v2ray_a.Base.{ℕ, ◌+◌, ◌-◌, ◌*◌, ◌≤◌, ◌<◌, ◌≡◌, leb, arith, max, Bool-cases, inl, inr}
use native.Mathlib.Nat.{div-mul-le_self, le_of_mul-le-mul_right}
use v2ray_a.Dns.Module.{update_avg_rtt}

below :
    (c s m b n q1 q2 : ℕ)
    → q1 * n ≤ c * m
    → q2 * n ≤ s
    → n ≡ m + 1
    → c ≤ b
    → s ≤ b
    → (q1 + q2) * n ≤ b * n
below c s m b n q1 q2 h k e f g = grind arith

-- The average never exceeds the greater of the two, the average so far and the new sample.
update_avg_rtt-le-max :
    (current sample count : ℕ) → update_avg_rtt current sample count ≤ max current sample
unfolding update_avg_rtt
update_avg_rtt-le-max current sample count = elim (Bool-cases (leb count 1)) [
  | inl first ↦ rw first (ground arith)
  | inr later ↦
      let big : 1 < count = ground arith in
      rw later (
        le_of_mul-le-mul_right
          (below current sample (count - 1) (max current sample) count _ _
            (div-mul-le_self (current * (count - 1)) count) (div-mul-le_self sample count)
            (omega arith) (omega arith) (omega arith))
          (omega arith))
]
