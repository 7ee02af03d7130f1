-- ===== src/Time/Fixed.antt =====
-- The conversions: 64-bit fixed point to a time (`integer64_to_internalTime`), and between the
-- internal and the wire form of a time.
use ptp_noposix.Prelude.{
  ℕ, ◌+◌, ◌-◌, ◌*◌, ◌/◌, ◌%◌, ◌^◌, ◌<◌, ◌≡◌, ap, ◌∙◌, ◌⊎◌, inr, true, false, zero, suc, arith,
}
use ptp_noposix.Prelude.Int.{
  ℤ, pos, negsuc, ◌+ℤ◌, neg, scale, quot, i32, i32_parts, pos_part, neg_part, neg_parts, ltb_ℤ,
  IsI32, eq_of_parts, one_part, rem, rem_parts, quot_parts, scale_parts, +ℤ_parts, pattern32,
}
use ptp_noposix.Time.{
  TimeInternal, Timestamp, Integer64, billion, int_max, convert_magnitude, negate,
  integer64_to_internal_time, from_internal_time, to_internal_time,
}
use ptp_noposix.Time.Laws.{total, IsNormal, normalize_written}

-- The number that the two words stand for.
abbrev pub value : Integer64 → ℤ
value b = scale (2 ^ 32) b.msb +ℤ pos b.lsb

abbrev pub IsWord64 : Integer64 → Type 0
IsWord64 b = (b.lsb < 2 ^ 32) × IsI32 b.msb

module _ (l m : ℕ) (r : TimeInternal) (hl : l < 2 ^ 32) (hm : m < 2 ^ 31) where
  -- The lower word after the shift, and the seconds and nanoseconds that are written.
  low : ℕ
  low = l / 2 ^ 16 % 2 ^ 16 + pattern32 (pos m) % 2 ^ 16 * 2 ^ 16

  high_ns : ℤ
  high_ns = scale 294967296 (pos (m / 2 ^ 16))

  written_s : ℤ
  written_s = pos (low / billion) +ℤ (scale 4 (pos (m / 2 ^ 16)) +ℤ quot high_ns billion)

  written_n : ℤ
  written_n = pos (low % billion) +ℤ rem high_ns billion

  high_parts : (pos_part high_ns ≡ m / 2 ^ 16 * 294967296) × (neg_part high_ns ≡ 0)
  unfolding high_ns
  high_parts = omega (arith, scale_parts 294967296 (pos (m / 2 ^ 16)))

  s_parts :
      (pos_part written_s ≡ low / billion + (m / 2 ^ 16 * 4 + m / 2 ^ 16 * 294967296 / billion))
      × (neg_part written_s ≡ 0)
  unfolding written_s
  s_parts = omega (
    arith,
    high_parts,
    quot_parts high_ns billion,
    scale_parts 4 (pos (m / 2 ^ 16)),
    +ℤ_parts (scale 4 (pos (m / 2 ^ 16))) (quot high_ns billion),
    +ℤ_parts (pos (low / billion)) (scale 4 (pos (m / 2 ^ 16)) +ℤ quot high_ns billion),
  )

  n_parts :
      (pos_part written_n ≡ low % billion + m / 2 ^ 16 * 294967296 % billion)
      × (neg_part written_n ≡ 0)
  unfolding written_n
  n_parts = omega (
    arith,
    high_parts,
    rem_parts high_ns billion,
    +ℤ_parts (pos (low % billion)) (rem high_ns billion),
  )

  low_eq : low + m / 2 ^ 16 * 2 ^ 32 ≡ (m * 2 ^ 32 + l) / 2 ^ 16
  unfolding low
  low_eq = omega arith

  low_lt : low < 2 ^ 32
  unfolding low
  low_lt = omega arith

  sum_eq : scale billion written_s +ℤ written_n ≡ pos ((m * 2 ^ 32 + l) / 2 ^ 16)
  sum_eq = eq_of_parts _ (pos ((m * 2 ^ 32 + l) / 2 ^ 16)) (
      omega (
        arith,
        s_parts,
        n_parts,
        low_eq,
        scale_parts billion written_s,
        +ℤ_parts (scale billion written_s) written_n,
      ))

  -- A value that is not negative: the fraction is dropped.
  magnitude :
      IsNormal (convert_magnitude (record { lsb = l; msb = pos m }) r)
      × (total (convert_magnitude (record { lsb = l; msb = pos m }) r)
          ≡ pos ((m * 2 ^ 32 + l) / 2 ^ 16))
  unfolding convert_magnitude written_s written_n high_ns low
  magnitude =
      let norm =
        normalize_written r written_s written_n (omega (arith, s_parts, low_lt))
          (omega (arith, n_parts)) in
      (norm.0, norm.1 ∙ sum_eq)

-- Changing the sign of both fields of a small normal time changes the sign of the time.
module _ (t : TimeInternal) (n : ℕ) (norm : IsNormal t) (e : total t ≡ pos n)
    (small : n < 2 ^ 48) where
  fields_positive :
      (neg_part t.seconds ≡ 0) × (neg_part t.nanoseconds ≡ 0) × (pos_part t.seconds < 2 ^ 31)
  fields_positive = omega (
    arith,
    norm.signs,
    ap pos_part e,
    ap neg_part e,
    scale_parts billion t.seconds,
    +ℤ_parts (scale billion t.seconds) t.nanoseconds,
  )

  abbrev flipped : TimeInternal
  flipped = record t { nanoseconds = i32 (neg t.nanoseconds); seconds = i32 (neg t.seconds) }

  flipped_parts :
      (pos_part flipped.seconds ≡ 0)
      × (neg_part flipped.seconds ≡ pos_part t.seconds)
      × (pos_part flipped.nanoseconds ≡ 0)
      × (neg_part flipped.nanoseconds ≡ pos_part t.nanoseconds)
  flipped_parts = omega (
    arith,
    fields_positive,
    norm,
    neg_parts t.seconds,
    neg_parts t.nanoseconds,
    i32_parts (neg t.seconds),
    i32_parts (neg t.nanoseconds),
  )

  flipped-IsNormal : IsNormal flipped
  flipped-IsNormal = record {
    pos_small = omega (arith, flipped_parts, norm);
    neg_small = omega (arith, flipped_parts, norm);
    signs = inr (flipped_parts.0, flipped_parts.2);
  }

  total-flipped : total flipped ≡ neg (pos n)
  total-flipped = eq_of_parts (total flipped) (neg (pos n)) (
      omega (
        arith,
        flipped_parts,
        fields_positive,
        ap pos_part e,
        neg_parts (pos n),
        scale_parts billion t.seconds,
        +ℤ_parts (scale billion t.seconds) t.nanoseconds,
        scale_parts billion flipped.seconds,
        +ℤ_parts (scale billion flipped.seconds) flipped.nanoseconds,
      ))

-- The words of -x, for x < 0 and above the least value.
negate_lem :
    (l n : ℕ)
    → l < 2 ^ 32
    → n < 2 ^ 31
    → (n ≡ 2 ^ 31 - 1 → 0 < l)
    → (k : ℕ) × (h : ℕ) × (negate (record { lsb = l; msb = negsuc n })
        ≡ record { lsb = k; msb = pos h })
      × (k < 2 ^ 32)
      × (h < 2 ^ 31)
      × (h * 2 ^ 32 + k ≡ (n + 1) * 2 ^ 32 - l)
unfolding negate i32 ◌+ℤ◌
negate_lem zero n hl hn h = (0, n + 1, ground arith, ground arith, ground arith, ground arith)
negate_lem (suc l) n hl hn h =
    (2 ^ 32 - suc l, n, ground arith, ground arith, ground arith, ground arith)

value_nonneg :
    (l m : ℕ)
    → quot (value (record { lsb = l; msb = pos m })) (2 ^ 16) ≡ pos ((m * 2 ^ 32 + l) / 2 ^ 16)
value_nonneg l m = eq_of_parts _ (pos ((m * 2 ^ 32 + l) / 2 ^ 16)) (
    omega (
      arith,
      quot_parts (value (record { lsb = l; msb = pos m })) (2 ^ 16),
      +ℤ_parts (scale (2 ^ 32) (pos m)) (pos l),
      scale_parts (2 ^ 32) (pos m),
    ))

value_negative :
    (l n k h : ℕ)
    → l < 2 ^ 32
    → h * 2 ^ 32 + k ≡ (n + 1) * 2 ^ 32 - l
    → quot (value (record { lsb = l; msb = negsuc n })) (2 ^ 16)
      ≡ neg (pos ((h * 2 ^ 32 + k) / 2 ^ 16))
value_negative l n k h hl e = eq_of_parts _ (neg (pos ((h * 2 ^ 32 + k) / 2 ^ 16))) (
    omega (
      arith,
      quot_parts (value (record { lsb = l; msb = negsuc n })) (2 ^ 16),
      +ℤ_parts (scale (2 ^ 32) (negsuc n)) (pos l),
      scale_parts (2 ^ 32) (negsuc n),
      neg_parts (pos ((h * 2 ^ 32 + k) / 2 ^ 16)),
    ))

not_negative : (m : ℕ) → ltb_ℤ (pos m) (pos 0) ≡ false
not_negative m = ground arith

is_negative : (n : ℕ) → ltb_ℤ (negsuc n) (pos 0) ≡ true
is_negative n = ground arith

abbrev Converts : Integer64 → TimeInternal → Type 0
Converts b r =
    IsNormal (integer64_to_internal_time b r)
    × (total (integer64_to_internal_time b r) ≡ quot (value b) (2 ^ 16))

converts :
    (l : ℕ) (msb : ℤ) (r : TimeInternal)
    → l < 2 ^ 32
    → IsI32 msb
    → (neg_part msb ≡ 2 ^ 31 → 0 < l)
    → Converts (record { lsb = l; msb = msb }) r
unfolding integer64_to_internal_time
converts l (pos m) r hl hm h = rw (not_negative m, value_nonneg l m) (magnitude l m r hl hm.0)
converts l (negsuc n) r hl hm h =
    let (k, m, e, hk, hm', val) = negate_lem l n hl (omega arith) (λ p. h (omega arith)) in
    let (norm, tot) = magnitude k m r hk hm' in
    rw (is_negative n, e, value_negative l n k m hl val)
      (
        flipped-IsNormal _ ((m * 2 ^ 32 + k) / 2 ^ 16) norm tot (omega arith),
        total-flipped _ ((m * 2 ^ 32 + k) / 2 ^ 16) norm tot (omega arith),
      )

-- The conversion of a signed 64-bit number of nanoseconds with 16 fractional bits, other than the
-- least one, gives a normal time that counts the number without its fraction, rounded towards zero.
pub total-integer64_to_internal_time :
    (b : Integer64) (r : TimeInternal)
    → IsWord64 b
    → (neg_part b.msb ≡ 2 ^ 31 → 0 < b.lsb)
    → IsNormal (integer64_to_internal_time b r)
      × (total (integer64_to_internal_time b r) ≡ quot (value b) (2 ^ 16))
total-integer64_to_internal_time b r h least = converts b.lsb b.msb r h.0 h.1 least

-- A time with no negative field, whose nanoseconds fit in int and whose seconds are below INT_MAX,
-- goes to the wire form and back unchanged.
to_internal_time-from_internal_time :
    (t target : TimeInternal) (e : Timestamp)
    → IsI32 t.nanoseconds
    → neg_part t.seconds ≡ 0
    → neg_part t.nanoseconds ≡ 0
    → pos_part t.seconds < int_max
    → ((to_internal_time target (from_internal_time t e)).seconds ≡ t.seconds)
      × ((to_internal_time target (from_internal_time t e)).nanoseconds ≡ t.nanoseconds)
unfolding to_internal_time from_internal_time i32
to_internal_time-from_internal_time t target e hn zs zn h =
    (ground (arith, one_part t.seconds), ground (arith, one_part t.nanoseconds))

-- A time of exactly INT_MAX seconds and no negative nanoseconds goes to the wire form, but the
-- conversion back leaves its target as it was.
to_internal_time-int_max :
    (t target : TimeInternal) (e : Timestamp)
    → t.seconds ≡ pos int_max
    → neg_part t.nanoseconds ≡ 0
    → to_internal_time target (from_internal_time t e) ≡ target
unfolding to_internal_time from_internal_time i32
to_internal_time-int_max t target e h zn = ground arith

-- A time with a negative field is not converted at all.
pub from_internal_time-negative :
    (t : TimeInternal) (e : Timestamp)
    → (0 < neg_part t.seconds) ⊎ (0 < neg_part t.nanoseconds)
    → from_internal_time t e ≡ e
unfolding from_internal_time
from_internal_time-negative t e h = ground arith
