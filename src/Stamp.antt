-- ===== src/Stamp.antt =====
-- The time stamps of the hardware, `wr_timestamp_t` of libptpnetif/ptpd_netif.h, and the arithmetic
-- on them in PTPWRd/dep/wr_servo.c. The raw fields, which are for debugging, are left out. The field
-- `correct` of a result is written by none of these functions and read by no caller; it is 0 here.
pub mod Loops
pub mod Laws
pub mod Hardwarize
use ptp_noposix.Prelude.{ℕ, zero, suc, ◌+◌, ◌*◌, ◌/◌, ◌^◌, Bool, ◌&&◌, not, if◌then◌else◌, leb}
use ptp_noposix.Prelude.Int.{
  ℤ, pos, negsuc, ◌+ℤ◌, ◌-ℤ◌, neg, scale, quot, rem, i32, i64, ltb_ℤ, leb_ℤ, eqb_ℤ, pos_part,
  neg_part,
}
use ptp_noposix.Time.{TimeInternal}

pub record WrStamp : Type 0 where
  pub sec : ℤ
  pub nsec : ℤ
  pub phase : ℤ
  pub correct : ℤ

abbrev pub trillion : ℕ
trillion = 1000000000000

-- The number of picoseconds, before it is converted to 64 bits.
unfoldable pub picos : WrStamp → ℤ
picos ts = scale trillion ts.sec +ℤ scale 1000 ts.nsec +ℤ ts.phase

abbrev pub ts_to_picos : WrStamp → ℤ
ts_to_picos ts = i64 (picos ts)

unfoldable pub picos_to_ts : ℤ → WrStamp
picos_to_ts picoseconds =
    let phase = rem picoseconds 1000 in
    let nanoseconds = quot (picoseconds -ℤ phase) 1000 in
    let nsec = rem nanoseconds 1000000000 in
    record {
      sec = quot (nanoseconds -ℤ nsec) 1000000000;
      nsec = i32 nsec;
      phase = i32 phase;
      correct = pos 0;
    }

-- `while (low >= unit) { low -= unit; high++; }` and `while (low < 0) { low += unit; high--; }`, for
-- at most `fuel` rounds. A round brings `low` nearer to 0, and `high` starts at 0.
unfoldable pub carry : (fuel unit : ℕ) → ℤ × ℤ → ℤ × ℤ
carry zero unit x = x
carry (suc fuel) unit (low, high) =
    let rest = carry fuel unit (low -ℤ pos unit, high +ℤ pos 1) in
    if leb_ℤ (pos unit) low then rest else (low, high)

unfoldable pub borrow : (fuel unit : ℕ) → ℤ × ℤ → ℤ × ℤ
borrow zero unit x = x
borrow (suc fuel) unit (low, high) =
    let rest = borrow fuel unit (low +ℤ pos unit, high -ℤ pos 1) in
    if ltb_ℤ low (pos 0) then rest else (low, high)

-- The fuel with which the loops end.
abbrev pub carry_all : (unit : ℕ) → ℤ → ℤ × ℤ
carry_all unit low = carry (pos_part low / unit) unit (low, pos 0)

abbrev pub borrow_all : (unit : ℕ) → ℤ → ℤ × ℤ
borrow_all unit low = borrow (neg_part low / unit + 1) unit (low, pos 0)

unfoldable pub ts_add : WrStamp → WrStamp → WrStamp
ts_add a b =
    let (phase, up) = carry_all 1000 (i32 (a.phase +ℤ b.phase)) in
    let (nsec, over) = carry_all 1000000000 (i32 (up +ℤ i32 (a.nsec +ℤ b.nsec))) in
    record { sec = i64 (over +ℤ i64 (a.sec +ℤ b.sec)); nsec = nsec; phase = phase; correct = pos 0 }

unfoldable pub ts_sub : WrStamp → WrStamp → WrStamp
ts_sub a b =
    let (phase, down) = borrow_all 1000 (i32 (a.phase -ℤ b.phase)) in
    let (nsec, under) = borrow_all 1000000000 (i32 (down +ℤ i32 (a.nsec -ℤ b.nsec))) in
    record {
      sec = i64 (under +ℤ i64 (a.sec -ℤ b.sec));
      nsec = nsec;
      phase = phase;
      correct = pos 0;
    }

-- The four adjustments of `ts_hardwarize`, in order. `q` is the clock period in nanoseconds.
unfoldable pub align : (q : ℕ) → WrStamp → WrStamp
align q ts =
    let extra_nsec = rem ts.nsec q in
    if ltb_ℤ (pos 0) ts.nsec && not (eqb_ℤ extra_nsec (pos 0))
    then record ts {
      nsec = i32 (ts.nsec -ℤ extra_nsec);
      phase = i32 (ts.phase +ℤ i32 (scale 1000 extra_nsec));
    }
    else ts

unfoldable pub lift : WrStamp → WrStamp
lift ts =
    if ltb_ℤ ts.nsec (pos 0)
    then record ts { nsec = i32 (ts.nsec +ℤ pos 1000000000); sec = i64 (ts.sec -ℤ pos 1) }
    else ts

unfoldable pub shorten : WrStamp → WrStamp
shorten ts =
    if eqb_ℤ ts.sec (negsuc 0) && ltb_ℤ (pos 0) ts.nsec
    then record ts { sec = i64 (ts.sec +ℤ pos 1); nsec = i32 (ts.nsec -ℤ pos 1000000000) }
    else ts

unfoldable pub absorb : (q : ℕ) → WrStamp → WrStamp
absorb q ts =
    if ltb_ℤ ts.nsec (pos 0) && leb_ℤ (neg (pos q)) ts.nsec && eqb_ℤ ts.sec (pos 0)
    then record ts { nsec = i32 (ts.nsec +ℤ pos q); phase = i32 (ts.phase -ℤ i32 (pos (q * 1000))) }
    else ts

-- The clock period is a positive number of picoseconds.
unfoldable pub ts_hardwarize : WrStamp → (clock_period_ps : ℕ) → WrStamp
ts_hardwarize ts clock_period_ps =
    let q_threshold = (clock_period_ps + 999) / 1000 in
    absorb q_threshold (shorten (lift (align q_threshold ts)))

unfoldable pub timeint_to_wr : TimeInternal → WrStamp
timeint_to_wr t = record { sec = t.seconds; nsec = t.nanoseconds; phase = t.phase; correct = pos 0 }
