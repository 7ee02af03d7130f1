-- ===== src/Netif/Laws.antt =====
-- The nanoseconds and the phase of the time of arrival that `ptpd_netif_linearize_rx_timestamp` of libptpnetif/ptpd_netif.c makes.
use ptp_noposix.Prelude.{
  ℕ, ◌+◌, ◌*◌, ◌/◌, ◌^◌, ◌<◌, ◌≤◌, ◌≡◌, ◌⊎◌, inl, inr, refl, ap, ◌∙◌, Bool, true, false, not, ltb,
  leb, Bool-cases, ◌-◌, ◌&&◌, if◌then◌else◌, arith,
}
use ptp_noposix.Prelude.Int.{ℤ, pos, ◌+ℤ◌, ◌-ℤ◌, quot, i32, sub_ℕ}
use ptp_noposix.Stamp.{WrStamp}
use ptp_noposix.Netif.{
  inside_range, up_into, down_into, falling_nsec, reliable_nsec, linear_phase,
  linearize_rx_timestamp,
}

-- r is x modulo p, for x below 2 * p.
abbrev pub Reduces : (p x r : ℕ) → Type 0
Reduces p x r = (r < p) × ((r ≡ x) ⊎ (r + p ≡ x))

sub_int : (a b : ℕ) → a < 2 ^ 31 → b < 2 ^ 31 → i32 (pos a -ℤ pos b) ≡ sub_ℕ a b
unfolding ◌-ℤ◌ i32
sub_int a b ha hb = ground arith

sub_nat : (a b : ℕ) → a < 2 ^ 31 → b ≤ a → i32 (pos a -ℤ pos b) ≡ pos (a - b)
unfolding ◌-ℤ◌ i32
sub_nat a b ha hb = ground arith

sub_one : (a b : ℕ) → a < 2 ^ 30 → b < 2 ^ 30 → i32 (sub_ℕ a b -ℤ pos 1) ≡ sub_ℕ a (b + 1)
unfolding ◌-ℤ◌ i32
sub_one a b ha hb = ground arith

add_int : (a b : ℕ) → a + b < 2 ^ 31 → i32 (pos a +ℤ pos b) ≡ pos (a + b)
unfolding ◌+ℤ◌ i32
add_int a b h = ground arith

up_into_sub :
    (p a b r : ℕ)
    → p < 2 ^ 29
    → a < p
    → b ≤ p
    → Reduces p (a + p - b) r
    → up_into (pos p) (sub_ℕ a b) ≡ pos r
unfolding up_into ◌+ℤ◌ i32
up_into_sub p a b r hp ha hb h = ground arith

down_into_add : (p a r : ℕ) → p < 2 ^ 29 → Reduces p a r → down_into (pos p) (pos a) ≡ pos r
unfolding down_into ◌-ℤ◌ i32
down_into_add p a r hp h = ground arith

-- `o` is the place in the clock period at which a frame comes, from the edge at which the counter
-- counts; `d` is the phase that the detector then measures.
module _ (p q tp d o : ℕ) (p_small : p < 2 ^ 29) (tp_in : tp < p) (d_in : d < p) where
  module _ (measured : Reduces p (d + tp + 1) o) where
    module _ (lo hi : ℕ) (q_pos : 0 < q) (q_quarter : q * 4 ≤ p) where
      inside_window :
          Reduces p (tp + p - q) lo
          → Reduces p (tp + q) hi
          → inside_range (pos lo) (pos hi) (pos (p - 1 - d)) ≡ not (ltb q o && ltb o (p - q))
      unfolding inside_range
      inside_window l h = ground arith

      inside_first :
          Reduces p (tp + p - q) lo → inside_range (pos lo) (pos tp) (pos (p - 1 - d)) ≡ leb o q
      unfolding inside_range
      inside_first l = ground arith

    linear_phase_lem : linear_phase (pos (p - 1 - d)) (pos tp) (pos p) ≡ pos o
    unfolding linear_phase
    linear_phase_lem =
        let first : i32 (pos (p - 1 - d) -ℤ pos tp) ≡ sub_ℕ (p - 1 - d) tp =
          sub_int (p - 1 - d) tp (omega arith) (omega arith) in
        let second : i32 (sub_ℕ (p - 1 - d) tp -ℤ pos 1) ≡ sub_ℕ (p - 1 - d) (tp + 1) =
          sub_one (p - 1 - d) tp (omega arith) (omega arith) in
        let behind : up_into (pos p) (sub_ℕ (p - 1 - d) (tp + 1)) ≡ pos (p - 1 - o) =
          up_into_sub p (p - 1 - d) (tp + 1) (p - 1 - o) p_small (omega arith) (omega arith)
            (omega arith, ground arith) in
        let last : i32 (pos p -ℤ pos 1) ≡ pos (p - 1) = sub_nat p 1 (omega arith) (omega arith) in
        let result : i32 (pos (p - 1) -ℤ pos (p - 1 - o)) ≡ pos o =
          sub_nat (p - 1) (p - 1 - o) (omega arith) (omega arith) ∙ ap pos (omega arith) in
        rw (first, second, behind, last, result)

quot_pos : (k n : ℕ) → quot (pos k) n ≡ pos (k / n)
unfolding quot
quot_pos k n = ground arith

choose_edge :
    (q w o : ℕ) (x y z r : ℤ)
    → (o ≤ q → x ≡ r)
    → (w ≤ o → y ≡ r)
    → (q < o → o < w → z ≡ r)
    → (if not (ltb q o && ltb o w) then (if leb o q then x else y) else z) ≡ r
choose_edge q w o x y z r after before between = ground arith

module _ (p tp r : ℕ) (p_small : p < 2 ^ 29) (tp_in : tp < p) where
  quarter_below :
      Reduces p (tp + p - p / 4) r → up_into (pos p) (i32 (pos tp -ℤ quot (pos p) 4)) ≡ pos r
  quarter_below h =
      ap (λ x. up_into (pos p) (i32 (pos tp -ℤ x))) (quot_pos p 4)
      ∙ ap (up_into (pos p)) (sub_int tp (p / 4) (omega arith) (omega arith))
      ∙ up_into_sub p tp (p / 4) r p_small tp_in (omega arith) h

  quarter_above :
      Reduces p (tp + p / 4) r → down_into (pos p) (i32 (pos tp +ℤ quot (pos p) 4)) ≡ pos r
  quarter_above h =
      ap (λ x. down_into (pos p) (i32 (pos tp +ℤ x))) (quot_pos p 4)
      ∙ ap (down_into (pos p)) (add_int tp (p / 4) (omega arith))
      ∙ down_into_add p (tp + p / 4) r p_small h

-- What the hardware reads of a frame that comes `o` picoseconds after the edge at which the counter
-- counts to `n` nanoseconds. Further than a quarter of the period from that edge the rising counter is
-- right; nearer, it may be one tick behind or ahead, and the flag says whether it is ahead of the
-- falling one, which is right and has not counted yet in the first half.
pub record IsReading (p n o : ℕ) (nsec : ℤ) (ahead : Bool) : Type 0 where
  pub between : p / 4 < o → o < p - p / 4 → nsec ≡ pos n
  pub after : o ≤ p / 4 → nsec ≡ (if ahead then pos n else sub_ℕ n (p / 1000))
  pub before : p - p / 4 ≤ o → nsec ≡ pos (if ahead then n + p / 1000 else n)

falling_after :
    (p n : ℕ) (ahead : Bool)
    → p < 2 ^ 29
    → n < 2 ^ 30
    → i32 (
        falling_nsec (if ahead then pos n else sub_ℕ n (p / 1000)) ahead (pos p)
        +ℤ quot (pos p) 1000)
      ≡ pos n
unfolding falling_nsec quot ◌+ℤ◌ ◌-ℤ◌ i32
falling_after p n true hp hn = ground arith
falling_after p n false hp hn = ground arith

falling_before :
    (p n : ℕ) (ahead : Bool)
    → p < 2 ^ 29
    → n < 2 ^ 30
    → falling_nsec (pos (if ahead then n + p / 1000 else n)) ahead (pos p) ≡ pos n
unfolding falling_nsec quot ◌-ℤ◌ i32
falling_before p n true hp hn = ground arith
falling_before p n false hp hn = ground arith

reduced : (p x : ℕ) → x < p + p → (r : ℕ) × Reduces p x r
reduced p x h = elim (Bool-cases (ltb x p)) [
  | inl t ↦ (x, (ground (arith, t), inl refl))
  | inr t ↦ (x - p, (ground (arith, t), inr (ground (arith, t))))
]

module _ (ts : WrStamp) (ahead : Bool) (p n o tp d : ℕ) where
  module _ (p_small : p < 2 ^ 29) (p_wide : 4 ≤ p) (n_small : n < 2 ^ 30) where
    module _ (tp_in : tp < p) (d_in : d < p) (measured : Reduces p (d + tp + 1) o) where
      reliable_nsec_lem :
          IsReading p n o ts.nsec ahead
          → reliable_nsec ts ahead (pos (p - 1 - d)) (pos tp) (pos p) ≡ pos n
      unfolding reliable_nsec
      reliable_nsec_lem reading =
          let q = p / 4 in
          let lo = reduced p (tp + p - q) (omega arith) in
          let hi = reduced p (tp + q) (omega arith) in
          let low : up_into (pos p) (i32 (pos tp -ℤ quot (pos p) 4)) ≡ pos lo.0 =
            quarter_below p tp lo.0 p_small tp_in lo.1 in
          let high : down_into (pos p) (i32 (pos tp +ℤ quot (pos p) 4)) ≡ pos hi.0 =
            quarter_above p tp hi.0 p_small tp_in hi.1 in
          let window =
            inside_window p q tp d o p_small tp_in d_in measured lo.0 hi.0 (omega arith)
              (omega arith) lo.1 hi.1 in
          let first =
            inside_first p q tp d o p_small tp_in d_in measured lo.0 hi.0 (omega arith)
              (omega arith) lo.1 in
          rw (low, high, window, first)
            (choose_edge q (p - q) o _ _ _ (pos n)
              (λ h.
                ap (λ x. i32 (falling_nsec x ahead (pos p) +ℤ quot (pos p) 1000)) (reading.after h)
                ∙ falling_after p n ahead p_small n_small)
              (λ h.
                ap (λ x. falling_nsec x ahead (pos p)) (reading.before h)
                ∙ falling_before p n ahead p_small n_small)
              reading.between)

      pub linearize_rx_timestamp-IsReading :
          IsReading p n o ts.nsec ahead
          → linearize_rx_timestamp ts (pos d) ahead (pos tp) (pos p)
            ≡ record ts { nsec = pos n; phase = pos o }
      unfolding linearize_rx_timestamp
      linearize_rx_timestamp-IsReading reading =
          let period : i32 (pos p -ℤ pos 1) ≡ pos (p - 1) =
            sub_nat p 1 (omega arith) (omega arith) in
          let phase : i32 (pos (p - 1) -ℤ pos d) ≡ pos (p - 1 - d) =
            sub_nat (p - 1) d (omega arith) (omega arith) in
          rw (
            period,
            phase,
            reliable_nsec_lem reading,
            linear_phase_lem p (p / 4) tp d o p_small tp_in d_in measured,
          )
