-- ===== src/Exchange/Phase.antt =====
-- The phase that a Delay_Resp carries in its correction field, from `phase_to_cf_units` of
-- PTPWRd/protocol.c to `wr_servo_got_delay` of PTPWRd/dep/wr_servo.c.
use mathlib.Core.Path.{subst}
use ptp_noposix.Prelude.{ℕ, ◌+◌, ◌*◌, ◌/◌, ◌^◌, ◌<◌, ◌≤◌, ◌≡◌, refl, sym, ap, ◌∙◌, arith}
use ptp_noposix.Prelude.Int.{
  ℤ, pos, i32, i32_fits, i64, i64_fits, pos_part, neg_part, pattern32, signed32, scale, quot,
}
use ptp_noposix.Handle.Delay.{phase_to_cf_units}

-- A phase of less than 2^15 picoseconds comes through the correction field, or one less.
abbrev pub IsNearly : ℤ → ℕ → Type 0
IsNearly a p = (neg_part a ≡ 0) × (pos_part a ≤ p) × (p ≤ pos_part a + 1)

scale_pos : (k n : ℕ) → scale k (pos n) ≡ pos (n * k)
unfolding scale
scale_pos k n = ground arith

quot_pos : (n k : ℕ) → quot (pos n) k ≡ pos (n / k)
unfolding quot
quot_pos n k = ground arith

word : (a : ℤ) → signed32 (pattern32 a) ≡ i32 a
unfolding i32
word a = refl

-- The units of the correction field.
cf_units :
    (p : ℕ) → p < 2 ^ 15 → signed32 (pattern32 (phase_to_cf_units (pos p))) ≡ pos (p * 65536 / 1000)
unfolding phase_to_cf_units
cf_units p h =
    let fits : i32 (pos (p * 65536 / 1000)) ≡ pos (p * 65536 / 1000) =
      i32_fits (pos (p * 65536 / 1000)) (omega arith, omega arith) in
    let units : phase_to_cf_units (pos p) ≡ pos (p * 65536 / 1000) =
      ap (λ x. i32 (quot (i64 x) 1000)) (scale_pos 65536 p)
      ∙ ap (λ x. i32 (quot x 1000)) (i64_fits (pos (p * 65536)) (omega arith, omega arith))
      ∙ ap i32 (quot_pos (p * 65536) 1000)
      ∙ fits in
    ap (λ x. signed32 (pattern32 x)) units ∙ word (pos (p * 65536 / 1000)) ∙ fits

pub phase_kept :
    (p : ℕ)
    → p < 2 ^ 15
    → IsNearly (i32 (quot (scale 1000 (signed32 (pattern32 (phase_to_cf_units (pos p))))) 65536)) p
phase_kept p h =
    let m = p * 65536 / 1000 in
    let back = m * 1000 / 65536 in
    let total : i32 (quot (scale 1000 (signed32 (pattern32 (phase_to_cf_units (pos p))))) 65536)
        ≡ pos back =
      ap (λ x. i32 (quot (scale 1000 x) 65536)) (cf_units p h)
      ∙ ap (λ x. i32 (quot x 65536)) (scale_pos 1000 m)
      ∙ ap i32 (quot_pos (m * 1000) 65536)
      ∙ i32_fits (pos back) (omega arith, omega arith) in
    subst (λ x. IsNearly x p) (sym total) (refl, omega arith, omega arith)
