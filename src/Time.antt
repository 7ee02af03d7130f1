-- ===== src/Time.antt =====
-- PTPWRd/arith.c and the time structures of PTPWRd/datatypes.h and PTPWRd/dep/datatypes_dep.h.
-- An `int` is a ℤ that is converted by `i32` where C could leave the range, an unsigned word an ℕ.
-- The bytes of a word are those of a little-endian machine.
pub mod Laws
pub mod Fixed
use ptp_noposix.Prelude.{
  ℕ, ◌+◌, ◌-◌, ◌*◌, ◌/◌, ◌%◌, ◌^◌, Bool, true, false, ◌&&◌, ◌||◌, ltb, leb, ◌==◌, if◌then◌else◌,
  u32, ◌>>>◌,
}
use ptp_noposix.Prelude.Int.{
  ℤ, pos, negsuc, ◌+ℤ◌, ◌-ℤ◌, neg, scale, quot, i32, ltb_ℤ, pattern32, rem, asr,
}

pub record TimeInternal : Type 0 where
  pub seconds : ℤ
  pub nanoseconds : ℤ
  pub phase : ℤ
  pub correct : ℤ

-- UInteger48: a 32-bit and a 16-bit word.
pub record UInteger48 : Type 0 where
  pub lsb : ℕ
  pub msb : ℕ

pub record Timestamp : Type 0 where
  pub seconds_field : UInteger48
  pub nanoseconds_field : ℕ

-- Integer64: the upper word is signed.
pub record Integer64 : Type 0 where
  pub lsb : ℕ
  pub msb : ℤ

abbrev pub billion : ℕ
billion = 1000000000

abbrev pub int_max : ℕ
int_max = 2147483647

-- The two tests at the end of `normalizeTime`: bring the signs together.
fix_signs : TimeInternal → TimeInternal
fix_signs r =
    if ltb_ℤ (pos 0) seconds && ltb_ℤ nanoseconds (pos 0)
    then record r {
      seconds = i32 (seconds -ℤ pos 1);
      nanoseconds = i32 (nanoseconds +ℤ pos billion);
    }
    else if ltb_ℤ seconds (pos 0) && ltb_ℤ (pos 0) nanoseconds
    then record r {
      seconds = i32 (seconds +ℤ pos 1);
      nanoseconds = i32 (nanoseconds -ℤ pos billion);
    }
    else r
  where
    open r use {seconds, nanoseconds}

unfoldable pub normalize_time : TimeInternal → TimeInternal
unfolding fix_signs
normalize_time r =
    let carry = quot r.nanoseconds billion in
    fix_signs (record r {
      seconds = i32 (r.seconds +ℤ carry);
      nanoseconds = i32 (r.nanoseconds -ℤ scale billion carry);
    })

-- The result parameter `r` of C is the first argument: its other fields stay.
unfoldable pub add_time : TimeInternal → TimeInternal → TimeInternal → TimeInternal
add_time r x y = normalize_time (record r {
  seconds = i32 (x.seconds +ℤ y.seconds);
  nanoseconds = i32 (x.nanoseconds +ℤ y.nanoseconds);
})

unfoldable pub sub_time : TimeInternal → TimeInternal → TimeInternal → TimeInternal
sub_time r x y = normalize_time (record r {
  seconds = i32 (x.seconds -ℤ y.seconds);
  nanoseconds = i32 (x.nanoseconds -ℤ y.nanoseconds);
})

-- The part of `integer64_to_internalTime` that both signs share, on a value that is not negative:
-- drop 16 fractional bits, then split the upper and the lower word into seconds and nanoseconds.
unfoldable pub convert_magnitude : Integer64 → TimeInternal → TimeInternal
unfolding rem asr
convert_magnitude bigint internal =
    let lsb = bigint.lsb / 2 ^ 16 % 2 ^ 16 + pattern32 bigint.msb % 2 ^ 16 * 2 ^ 16 in
    let msb = asr bigint.msb 16 in
    let ns_msb = scale 294967296 msb in
    let s_msb = scale 4 msb +ℤ quot ns_msb billion in
    normalize_time (record internal {
      nanoseconds = i32 (pos (lsb % billion) +ℤ rem ns_msb billion);
      seconds = i32 (pos (lsb / billion) +ℤ s_msb);
    })

-- ~x of a signed word.
complement : ℤ → ℤ
complement (pos n) = negsuc n
complement (negsuc n) = pos n

-- The two's complement of both words, with the carry from the lower to the upper.
unfoldable pub negate : Integer64 → Integer64
unfolding complement
negate b =
    let lsb = 2 ^ 32 - 1 - b.lsb in
    let msb = complement b.msb in
    if lsb == 0xffffffff
    then record { lsb = 0; msb = i32 (msb +ℤ pos 1) }
    else record { lsb = lsb + 1; msb = msb }

unfoldable pub integer64_to_internal_time : Integer64 → TimeInternal → TimeInternal
integer64_to_internal_time bigint internal =
    if ltb_ℤ bigint.msb (pos 0)
    then (let t = convert_magnitude (negate bigint) internal in
        record t { nanoseconds = i32 (neg t.nanoseconds); seconds = i32 (neg t.seconds) })
    else convert_magnitude bigint internal

-- A negative time leaves the timestamp as it was.
unfoldable pub from_internal_time : TimeInternal → Timestamp → Timestamp
from_internal_time internal external =
    if ltb_ℤ internal.seconds (pos 0) || ltb_ℤ internal.nanoseconds (pos 0)
    then external
    else record {
      seconds_field = record { lsb = pattern32 internal.seconds; msb = 0 };
      nanoseconds_field = pattern32 internal.nanoseconds;
    }

-- Seconds from INT_MAX on leave the internal time as it was.
unfoldable pub to_internal_time : TimeInternal → Timestamp → TimeInternal
to_internal_time internal external =
    if ltb external.seconds_field.lsb int_max
    then record internal {
      seconds = pos external.seconds_field.lsb;
      nanoseconds = i32 (pos external.nanoseconds_field);
    }
    else internal
