-- ===== src/Stamp/Loops.antt =====
-- The loops of `ts_add` and `ts_sub`, for any unit.
use ptp_noposix.Prelude.{ℕ, zero, suc, ◌+◌, ◌*◌, ◌/◌, ◌<◌, ◌≤◌, ◌≡◌, ap, ◌∙◌, refl, arith, if_intro}
use ptp_noposix.Prelude.Int.{
  ℤ, pos, ◌+ℤ◌, ◌-ℤ◌, scale, ltb_ℤ, leb_ℤ, pos_part, neg_part, eq_of_parts, balance, +ℤ_parts,
  -ℤ_parts, scale_parts, +ℤ_balance, one_part,
}
use ptp_noposix.Stamp.{carry, borrow, carry_all, borrow_all}

-- A count of units and a rest, as one number.
abbrev weigh : ℕ → ℤ × ℤ → ℤ
weigh unit (low, high) = scale unit high +ℤ low

-- One unit more.
scale_step :
    (unit : ℕ) (a b : ℤ)
    → pos_part b + neg_part a ≡ pos_part a + 1 + neg_part b
    → pos_part (scale unit b) + neg_part (scale unit a)
      ≡ pos_part (scale unit a) + unit + neg_part (scale unit b)
scale_step unit a b e = omega (arith, ap (λ x. x * unit) e, scale_parts unit a, scale_parts unit b)

weigh_up :
    (unit : ℕ) (low high : ℤ) → weigh unit (low -ℤ pos unit, high +ℤ pos 1) ≡ weigh unit (low, high)
weigh_up unit low high =
    eq_of_parts _ _ (omega (balance, scale_step unit high (high +ℤ pos 1) (omega balance)))

weigh_down :
    (unit : ℕ) (low high : ℤ) → weigh unit (low +ℤ pos unit, high -ℤ pos 1) ≡ weigh unit (low, high)
weigh_down unit low high =
    eq_of_parts _ _ (omega (balance, scale_step unit (high -ℤ pos 1) high (omega balance)))

-- The loops keep the number, and enough fuel ends them.
weigh-carry :
    (fuel unit : ℕ) (low high : ℤ)
    → weigh unit (carry fuel unit (low, high)) ≡ weigh unit (low, high)
unfolding carry
weigh-carry zero unit low high = refl
weigh-carry (suc fuel) unit low high =
    if_intro (λ x. weigh unit x ≡ weigh unit (low, high)) (leb_ℤ (pos unit) low) _ _
      (λ _. weigh-carry fuel unit (low -ℤ pos unit) (high +ℤ pos 1) ∙ weigh_up unit low high)
      (λ _. refl)

weigh-borrow :
    (fuel unit : ℕ) (low high : ℤ)
    → weigh unit (borrow fuel unit (low, high)) ≡ weigh unit (low, high)
unfolding borrow
weigh-borrow zero unit low high = refl
weigh-borrow (suc fuel) unit low high =
    if_intro (λ x. weigh unit x ≡ weigh unit (low, high)) (ltb_ℤ low (pos 0)) _ _
      (λ _. weigh-borrow fuel unit (low +ℤ pos unit) (high -ℤ pos 1) ∙ weigh_down unit low high)
      (λ _. refl)

-- A rest below the unit.
abbrev pub IsRest : ℕ → ℤ → Type 0
IsRest unit low = (pos_part low < unit) × (neg_part low ≡ 0)

carry_ends :
    (fuel unit : ℕ) (low high : ℤ)
    → pos_part low < suc fuel * unit
    → (pos_part ((carry fuel unit (low, high)).0) < unit)
      × (neg_part ((carry fuel unit (low, high)).0) ≤ neg_part low)
unfolding carry
carry_ends zero unit low high b = omega (arith, b)
carry_ends (suc fuel) unit low high b =
    if_intro (λ (x : ℤ × ℤ). (pos_part (x.0) < unit) × (neg_part (x.0) ≤ neg_part low))
      (leb_ℤ (pos unit) low) _ _
      (λ t.
        let rest =
          carry_ends fuel unit (low -ℤ pos unit) (high +ℤ pos 1)
            (ground (arith, t, b, -ℤ_parts low (pos unit))) in
        ground (arith, t, rest, one_part low, -ℤ_parts low (pos unit)))
      (λ f. ground (arith, f, one_part low))

borrow_ends :
    (fuel unit : ℕ) (low high : ℤ)
    → pos_part low < unit
    → neg_part low ≤ fuel * unit
    → IsRest unit ((borrow fuel unit (low, high)).0)
unfolding borrow
borrow_ends zero unit low high h b = (h, omega (arith, b))
borrow_ends (suc fuel) unit low high h b =
    if_intro (λ (x : ℤ × ℤ). IsRest unit (x.0)) (ltb_ℤ low (pos 0)) _ _
      (λ t.
        borrow_ends fuel unit (low +ℤ pos unit) (high -ℤ pos 1)
          (ground (arith, t, h, +ℤ_parts low (pos unit)))
          (ground (arith, h, b, one_part low, t, +ℤ_parts low (pos unit))))
      (λ f. (h, ground (arith, f, one_part low)))

-- What the loops return on all of a number: a rest, and the same number in all.
abbrev pub Splits : ℕ → ℤ → ℤ × ℤ → Type 0
Splits unit low (rest, high) =
    pos_part low + neg_part high * unit + neg_part rest
    ≡ neg_part low + pos_part high * unit + pos_part rest

module _ (unit : ℕ) (below_next : (n : ℕ) → n < suc (n / unit) * unit) where
  abbrev low_of : ℤ × ℤ → ℤ
  low_of x = x.0

  Splits-weigh : (low : ℤ) (r : ℤ × ℤ) → weigh unit r ≡ weigh unit (low, pos 0) → Splits unit low r
  Splits-weigh low (rest, high) h = omega (
    balance,
    scale_parts unit high,
    scale_parts unit (pos 0),
    ap pos_part h,
    ap neg_part h,
    +ℤ_balance (scale unit high) rest,
    +ℤ_balance (scale unit (pos 0)) low,
  )

  pub carry_all_lem :
      (low : ℤ)
      → Splits unit low (carry_all unit low)
        × (pos_part (low_of (carry_all unit low)) < unit)
        × (neg_part (low_of (carry_all unit low)) ≤ neg_part low)
  carry_all_lem low =
      let ends = carry_ends (pos_part low / unit) unit low (pos 0) (below_next (pos_part low)) in
      (
        Splits-weigh low (carry_all unit low) (weigh-carry (pos_part low / unit) unit low (pos 0)),
        ends.0,
        ends.1,
      )

  pub borrow_all_lem :
      (low : ℤ)
      → pos_part low < unit
      → Splits unit low (borrow_all unit low) × IsRest unit (low_of (borrow_all unit low))
  borrow_all_lem low h = (
    Splits-weigh low (borrow_all unit low)
        (weigh-borrow (neg_part low / unit + 1) unit low (pos 0)),
    borrow_ends (neg_part low / unit + 1) unit low (pos 0) h ground
        (arith, below_next (neg_part low)),
  )
