-- ===== src/Time/Laws.antt =====
-- What the time arithmetic computes, in nanoseconds.
use ptp_noposix.Prelude.{◌+◌, ◌-◌, ◌*◌, ◌/◌, ◌%◌, ◌^◌, ◌<◌, ◌≡◌, ap, ◌∙◌, ◌⊎◌, arith}
use ptp_noposix.Prelude.Int.{
  ℤ, pos, ◌+ℤ◌, ◌-ℤ◌, scale, quot, i32, i32_fits, pos_part, neg_part, IsI32, eq_of_parts, one_part,
  i32_parts, balance, +ℤ_parts, -ℤ_parts, quot_parts, scale_parts,
}
use ptp_noposix.Time.{TimeInternal, billion, fix_signs, normalize_time, add_time, sub_time}

-- The time as one number of nanoseconds.
abbrev pub total : TimeInternal → ℤ
total t = scale billion t.seconds +ℤ t.nanoseconds

-- Less than a second of nanoseconds, with the sign of the seconds.
pub record IsNormal (t : TimeInternal) : Type 0 where
  pub pos_small : pos_part t.nanoseconds < billion
  pub neg_small : neg_part t.nanoseconds < billion
  pub signs :
      ((neg_part t.seconds ≡ 0) × (neg_part t.nanoseconds ≡ 0))
      ⊎ ((pos_part t.seconds ≡ 0) × (pos_part t.nanoseconds ≡ 0))

-- Far enough from the ends of `int` that a carry does not wrap.
abbrev pub HasRoom : ℤ → Type 0
HasRoom s = (pos_part s < 2 ^ 31 - 3) × (neg_part s < 2 ^ 31 - 3)

-- `quot` and `scale` in the two parts, so that `omega` reads them shut.
ruleset time_laws = (balance, scale_parts)

abbrev pub IsSmall : ℤ → Type 0
IsSmall n = (pos_part n < billion) × (neg_part n < billion)

-- Bringing the signs together keeps the time.
fix_signs-IsNormal :
    (t : TimeInternal)
    → (pos_part t.seconds < 2 ^ 31 - 1) × (neg_part t.seconds < 2 ^ 31 - 1)
    → IsSmall t.nanoseconds
    → IsNormal (fix_signs t)
unfolding fix_signs
fix_signs-IsNormal t room small = ground (
  arith,
  one_part t.seconds,
  one_part t.nanoseconds,
  i32_parts (t.seconds -ℤ pos 1),
  i32_parts (t.seconds +ℤ pos 1),
  i32_parts (t.nanoseconds -ℤ pos billion),
  i32_parts (t.nanoseconds +ℤ pos billion),
  -ℤ_parts t.seconds (pos 1),
  +ℤ_parts t.seconds (pos 1),
  -ℤ_parts t.nanoseconds (pos billion),
  +ℤ_parts t.nanoseconds (pos billion),
)

-- Two times are the same number of nanoseconds when their positive and negative parts balance.
total_eq :
    (t u : TimeInternal)
    → pos_part t.seconds * billion
        + pos_part t.nanoseconds
        + neg_part u.seconds * billion
        + neg_part u.nanoseconds
      ≡ pos_part u.seconds * billion
        + pos_part u.nanoseconds
        + neg_part t.seconds * billion
        + neg_part t.nanoseconds
    → total t ≡ total u
total_eq t u h = eq_of_parts (total t) (total u) (
    omega (
      arith,
      +ℤ_parts (scale billion t.seconds) t.nanoseconds,
      +ℤ_parts (scale billion u.seconds) u.nanoseconds,
      scale_parts billion t.seconds,
      scale_parts billion u.seconds,
    ))

total-fix_signs :
    (t : TimeInternal)
    → (pos_part t.seconds < 2 ^ 31 - 1) × (neg_part t.seconds < 2 ^ 31 - 1)
    → IsSmall t.nanoseconds
    → total (fix_signs t) ≡ total t
unfolding fix_signs
total-fix_signs t room small = total_eq (fix_signs t) t (
    ground (
      arith,
      one_part t.seconds,
      one_part t.nanoseconds,
      i32_parts (t.seconds -ℤ pos 1),
      i32_parts (t.seconds +ℤ pos 1),
      i32_parts (t.nanoseconds -ℤ pos billion),
      i32_parts (t.nanoseconds +ℤ pos billion),
      -ℤ_parts t.seconds (pos 1),
      +ℤ_parts t.seconds (pos 1),
      -ℤ_parts t.nanoseconds (pos billion),
      +ℤ_parts t.nanoseconds (pos billion),
    ))

module _ (t : TimeInternal) (room : HasRoom t.seconds) (fits : IsI32 t.nanoseconds) where
  carry : ℤ
  carry = quot t.nanoseconds billion

  carried : TimeInternal
  carried = record t {
    seconds = i32 (t.seconds +ℤ carry);
    nanoseconds = i32 (t.nanoseconds -ℤ scale billion carry);
  }

  carried_parts :
      (pos_part carried.seconds
        ≡ pos_part t.seconds
          + pos_part t.nanoseconds / billion
          - (neg_part t.seconds + neg_part t.nanoseconds / billion))
      × (neg_part carried.seconds
          ≡ neg_part t.seconds
            + neg_part t.nanoseconds / billion
            - (pos_part t.seconds + pos_part t.nanoseconds / billion))
      × (pos_part carried.nanoseconds ≡ pos_part t.nanoseconds % billion)
      × (neg_part carried.nanoseconds ≡ neg_part t.nanoseconds % billion)
  unfolding carried carry
  carried_parts = omega (
    arith,
    one_part t.nanoseconds,
    quot_parts t.nanoseconds billion,
    scale_parts billion (quot t.nanoseconds billion),
    +ℤ_parts t.seconds (quot t.nanoseconds billion),
    -ℤ_parts t.nanoseconds (scale billion (quot t.nanoseconds billion)),
    i32_parts (t.seconds +ℤ quot t.nanoseconds billion),
    i32_parts (t.nanoseconds -ℤ scale billion (quot t.nanoseconds billion)),
  )

  -- Normalising a time gives a normal one (nanoseconds below a billion, no mixed signs) of the same
  -- number of nanoseconds, if its nanoseconds fit in int and its seconds are more than three away
  -- from the ends of int.
  normalize_time_lem : IsNormal (normalize_time t) × (total (normalize_time t) ≡ total t)
  unfolding normalize_time carried carry
  normalize_time_lem = (
    fix_signs-IsNormal carried (omega (arith, carried_parts, one_part t.nanoseconds))
        (omega (arith, carried_parts)),
    total-fix_signs carried (omega (arith, carried_parts, one_part t.nanoseconds))
          (omega (arith, carried_parts))
        ∙ total_eq carried t
            (omega (arith, carried_parts, one_part t.nanoseconds, one_part t.seconds)),
  )

-- The shape in which all operations call `normalizeTime`.
pub normalize_written :
    (r : TimeInternal) (s n : ℤ)
    → HasRoom s
    → IsI32 n
    → IsNormal (normalize_time (record r { seconds = i32 s; nanoseconds = i32 n }))
      × (total (normalize_time (record r { seconds = i32 s; nanoseconds = i32 n }))
          ≡ scale billion s +ℤ n)
normalize_written r s n room fits =
    rw (i32_fits s (omega arith), i32_fits n fits)
      (normalize_time_lem (record r { seconds = s; nanoseconds = n }) room fits)

module _ (r x y : TimeInternal) (nx : IsNormal x) (ny : IsNormal y) where
  -- The sum of two normal times is normal and counts the sum of their nanoseconds, if the seconds
  -- are more than three away from the ends of int.
  pub total-add_time :
      HasRoom (x.seconds +ℤ y.seconds)
      → IsNormal (add_time r x y) × (total (add_time r x y) ≡ total x +ℤ total y)
  unfolding add_time
  total-add_time room =
      let sum =
        normalize_written r (x.seconds +ℤ y.seconds) (x.nanoseconds +ℤ y.nanoseconds) room
          (omega (arith, nx, ny, +ℤ_parts x.nanoseconds y.nanoseconds)) in
      (sum.0, sum.1 ∙ omega time_laws)

  -- The difference of two normal times is normal and counts the difference of their nanoseconds, if
  -- the seconds are more than three away from the ends of int.
  total-sub_time :
      HasRoom (x.seconds -ℤ y.seconds)
      → IsNormal (sub_time r x y) × (total (sub_time r x y) ≡ total x -ℤ total y)
  unfolding sub_time
  total-sub_time room =
      let difference =
        normalize_written r (x.seconds -ℤ y.seconds) (x.nanoseconds -ℤ y.nanoseconds) room
          (omega (arith, nx, ny, -ℤ_parts x.nanoseconds y.nanoseconds)) in
      (difference.0, difference.1 ∙ omega time_laws)

cancel : (a b : ℤ) → a +ℤ b -ℤ b ≡ a
cancel a b = omega balance

unique_parts :
    (t u : TimeInternal)
    → IsNormal t
    → IsNormal u
    → total t ≡ total u
    → (pos_part t.seconds + neg_part u.seconds ≡ pos_part u.seconds + neg_part t.seconds)
      × (pos_part t.nanoseconds + neg_part u.nanoseconds
          ≡ pos_part u.nanoseconds + neg_part t.nanoseconds)
unique_parts t u nt nu e = omega (
  arith,
  ap pos_part e,
  ap neg_part e,
  nt.signs,
  nu.signs,
  +ℤ_parts (scale billion t.seconds) t.nanoseconds,
  +ℤ_parts (scale billion u.seconds) u.nanoseconds,
  scale_parts billion t.seconds,
  scale_parts billion u.seconds,
)

-- A normal time is determined by its number of nanoseconds.
pub IsNormal-unique :
    (t u : TimeInternal)
    → IsNormal t
    → IsNormal u
    → total t ≡ total u
    → (t.seconds ≡ u.seconds) × (t.nanoseconds ≡ u.nanoseconds)
IsNormal-unique t u nt nu e =
    let b = unique_parts t u nt nu e in
    (eq_of_parts t.seconds u.seconds b.0, eq_of_parts t.nanoseconds u.nanoseconds b.1)

-- Subtracting from a sum of two normal times the second one gives the first one back, in both
-- fields, if the seconds of the sum and of the difference are more than three away from the ends of
-- int.
sub_time-add_time :
    (r x y : TimeInternal)
    → IsNormal x
    → IsNormal y
    → HasRoom (x.seconds +ℤ y.seconds)
    → HasRoom ((add_time r x y).seconds -ℤ y.seconds)
    → ((sub_time r (add_time r x y) y).seconds ≡ x.seconds)
      × ((sub_time r (add_time r x y) y).nanoseconds ≡ x.nanoseconds)
sub_time-add_time r x y nx ny room room' =
    let sum = total-add_time r x y nx ny room in
    let back = total-sub_time r (add_time r x y) y sum.0 ny room' in
    IsNormal-unique _ x back.0 nx
      (back.1 ∙ ap (λ t. t -ℤ total y) sum.1 ∙ cancel (total x) (total y))
