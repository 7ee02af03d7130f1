-- ===== src/Servo/Delay.antt =====
-- The delay that `wr_servo_update` computes in unsigned words, as an integer.
use ptp_noposix.Prelude.{◌+◌, ◌-◌, ◌/◌, ◌^◌, ◌≡◌, ap, ◌∙◌, arith, u64}
use ptp_noposix.Prelude.Int.{
  ℤ, pos, negsuc, ◌+ℤ◌, ◌-ℤ◌, ◌*ℤ◌, asr, i64, signed64, pattern64, IsI64, i64_fits, +ℤ_balance,
  -ℤ_balance,
}
use ptp_noposix.Servo.Update.{delay_ms_fix}

add_pattern : (x y : ℤ) → u64 (pattern64 x + pattern64 y) ≡ pattern64 (x +ℤ y)
add_pattern x y = omega (arith, +ℤ_balance x y)

sub_pattern : (x y : ℤ) → u64 (pattern64 x + (2 ^ 64 - pattern64 y)) ≡ pattern64 (x -ℤ y)
sub_pattern x y = omega (arith, -ℤ_balance x y)

-- What halving the unsigned word of a signed number adds to its half.
abbrev pub excess : ℤ → ℤ
excess (pos n) = pos 0
excess (negsuc n) = pos (2 ^ 63)

half_pattern : (d : ℤ) → IsI64 d → pattern64 d / 2 ≡ pattern64 (asr d 1 +ℤ excess d)
unfolding asr
half_pattern (pos n) h = omega (arith, +ℤ_balance (pos (n / 2)) (pos 0))
half_pattern (negsuc n) h = omega (arith, +ℤ_balance (negsuc (n / 2)) (pos (2 ^ 63)))

-- The signed reading of a word, and the word again.
signed-pattern : (d : ℤ) → IsI64 d → signed64 (pattern64 d) ≡ d
unfolding i64
signed-pattern d h = i64_fits d h

-- If the round trip without the fixed delays, and its product with the coefficient of the fiber,
-- fit in 64 bits, then the delay that is computed in unsigned words is, modulo 2^64, the sum of the
-- product divided by 2^40, of half of the round trip without the fixed delays, of the fixed delays
-- of the master transmitter and the slave receiver and of the manual adjustment, all rounded down,
-- if the round trip is not shorter than the fixed delays; if it is shorter, it is that sum and
-- 2^63.
pub delay_ms_fix_lem :
    (mu fixed alpha delta_tx_m delta_rx_s ph_adjust : ℤ)
    → IsI64 (mu -ℤ fixed)
    → IsI64 ((mu -ℤ fixed) *ℤ alpha)
    → delay_ms_fix mu (pattern64 fixed) alpha delta_tx_m delta_rx_s ph_adjust
      ≡ pattern64 (
          asr ((mu -ℤ fixed) *ℤ alpha) 40
          +ℤ (asr (mu -ℤ fixed) 1 +ℤ excess (mu -ℤ fixed))
          +ℤ delta_tx_m
          +ℤ delta_rx_s
          +ℤ ph_adjust)
unfolding delay_ms_fix
delay_ms_fix_lem mu fixed alpha delta_tx_m delta_rx_s ph_adjust hd hp =
    let d = mu -ℤ fixed in
    let word = u64 (pattern64 mu + (2 ^ 64 - pattern64 fixed)) in
    let word_is : word ≡ pattern64 d = sub_pattern mu fixed in
    let weighed : i64 (signed64 word *ℤ alpha) ≡ d *ℤ alpha =
      ap (λ w. i64 (signed64 w *ℤ alpha)) word_is
      ∙ ap (λ x. i64 (x *ℤ alpha)) (signed-pattern d hd)
      ∙ i64_fits (d *ℤ alpha) hp in
    let half : word / 2 ≡ pattern64 (asr d 1 +ℤ excess d) =
      ap (λ w. w / 2) word_is ∙ half_pattern d hd in
    let x0 = asr (d *ℤ alpha) 40 in
    let x1 = asr d 1 +ℤ excess d in
    ap
      (λ w. u64 (
        pattern64 (asr w 40)
        + word / 2
        + pattern64 delta_tx_m
        + pattern64 delta_rx_s
        + pattern64 ph_adjust))
      weighed
    ∙ ap
        (λ h.
          u64
            (pattern64 x0 + h + pattern64 delta_tx_m + pattern64 delta_rx_s + pattern64 ph_adjust))
        half
    ∙ omega (
      arith,
      add_pattern x0 x1,
      add_pattern (x0 +ℤ x1) delta_tx_m,
      add_pattern (x0 +ℤ x1 +ℤ delta_tx_m) delta_rx_s,
      add_pattern (x0 +ℤ x1 +ℤ delta_tx_m +ℤ delta_rx_s) ph_adjust,
    )
