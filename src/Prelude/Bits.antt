-- ===== src/Prelude/Bits.antt =====
-- Laws of `|` and `&` at variables, for masks of low bits and for fields that do not overlap.
use Prim.Native.Nat.{min, max, digits, bit_and-bitwise, bit_or-bitwise}
use native.Mathlib.Nat.{
  pow-suc, one-le-pow, le_refl, mod-lt, mod-eq_of_lt, div-add-mod', mul-add-mod_self_right,
}
use ptp_noposix.Prelude.{
  ℕ, zero, suc, ◌+◌, ◌-◌, ◌*◌, ◌/◌, ◌%◌, ◌^◌, ◌≤◌, ◌<◌, ◌≡◌, refl, ap, ◌∙◌, Bool, true, ◌&&◌, arith,
  bit_and, bit_or,
}

-- A test that holds at every number below a bound, by trying them.
unfoldable pub every_below : (ℕ → Bool) → ℕ → Bool
every_below test zero = true
every_below test (suc top) = every_below test top && test top

pub every_below_at :
    (test : ℕ → Bool) (bound value : ℕ)
    → value < bound
    → every_below test bound ≡ true
    → test value ≡ true
unfolding every_below
every_below_at test zero value small tried = absurd (omega arith)
every_below_at test (suc top) value small tried = ground (arith, every_below_at test top value)

-- The recursion on binary digits that the native operations stand for: fuel beyond the left number
-- changes nothing.
module _ (z : ℕ → ℕ) (f : ℕ → ℕ → ℕ) where
  one_more : (fuel x y : ℕ) → x ≤ fuel → digits z f (suc fuel) x y ≡ digits z f fuel x y
  one_more zero zero y h = refl
  one_more zero (suc x) y h = absurd (omega arith)
  one_more (suc fuel) zero y h = refl
  one_more (suc fuel) (suc x) y h = omega (arith, one_more fuel (suc x / 2) (y / 2) (omega arith))

  spare_fuel : (spare fuel x y : ℕ) → fuel ≡ x + spare → digits z f fuel x y ≡ digits z f x x y
  spare_fuel zero fuel x y e = ap (λ n. digits z f n x y) (let e0 : fuel ≡ x = omega arith in e0)
  spare_fuel (suc spare) zero x y e = absurd (omega arith)
  spare_fuel (suc spare) (suc fuel) x y e =
      one_more fuel x y (omega arith) ∙ spare_fuel spare fuel x y (omega arith)

pub bit_or-zero_left : (b : ℕ) → bit_or 0 b ≡ b
bit_or-zero_left b = bit_or-bitwise 0 b

-- The lowest bit of a disjunction, and the rest.
pub bit_or_halves : (a b : ℕ) → bit_or a b ≡ bit_or (a / 2) (b / 2) * 2 + max (a % 2) (b % 2)
bit_or_halves zero b = omega (arith, bit_or-zero_left b, bit_or-zero_left (b / 2))
bit_or_halves (suc a) b = omega (
  arith,
  bit_or-bitwise (suc a) b,
  bit_or-bitwise (suc a / 2) (b / 2),
  spare_fuel (λ y. y) max (a - suc a / 2) a (suc a / 2) (b / 2) (omega arith),
)

bit_or-zero_fuel : (n a : ℕ) → a ≤ n → bit_or a 0 ≡ a
bit_or-zero_fuel n zero h = refl
bit_or-zero_fuel zero (suc a) h = absurd (omega arith)
bit_or-zero_fuel (suc n) (suc a) h =
    omega (arith, bit_or_halves (suc a) 0, bit_or-zero_fuel n (suc a / 2) (omega arith))

bit_or_comm_fuel : (n a b : ℕ) → a ≤ n → bit_or a b ≡ bit_or b a
bit_or_comm_fuel n zero b h = omega (arith, bit_or-zero_left b, bit_or-zero_fuel b b (le_refl _))
bit_or_comm_fuel zero (suc a) b h = absurd (omega arith)
bit_or_comm_fuel (suc n) (suc a) b h = omega (
  arith,
  bit_or_halves (suc a) b,
  bit_or_halves b (suc a),
  bit_or_comm_fuel n (suc a / 2) (b / 2) (omega arith),
)

pub bit_or_comm : (a b : ℕ) → bit_or a b ≡ bit_or b a
bit_or_comm a b = bit_or_comm_fuel a a b (le_refl _)

double_shift : (q k : ℕ) → q * 2 ^ suc k ≡ 2 * (q * 2 ^ k)
double_shift q k = omega (arith, ap (λ (t : ℕ). q * t) (pow-suc 2 k))

-- `(q << k) | r` is a sum when `r` fits `k` bits.
pub bit_or_disjoint : (k q r : ℕ) → r < 2 ^ k → bit_or (q * 2 ^ k) r ≡ q * 2 ^ k + r
bit_or_disjoint zero q r fits = ground (arith, bit_or-zero_fuel (q * 1) (q * 1) (le_refl _))
bit_or_disjoint (suc k) q r fits = ground (
  arith,
  bit_or_halves (q * 2 ^ suc k) r,
  double_shift q k,
  pow-suc 2 k,
  bit_or_disjoint k q (r / 2) (omega (arith, pow-suc 2 k)),
)

-- The same for `bit_and`, with a mask of low bits on the left.
bit_and-zero_left : (b : ℕ) → bit_and 0 b ≡ 0
bit_and-zero_left b = bit_and-bitwise 0 b

bit_and_halves : (a b : ℕ) → bit_and a b ≡ bit_and (a / 2) (b / 2) * 2 + min (a % 2) (b % 2)
bit_and_halves zero b = omega (arith, bit_and-zero_left b, bit_and-zero_left (b / 2))
bit_and_halves (suc a) b = omega (
  arith,
  bit_and-bitwise (suc a) b,
  bit_and-bitwise (suc a / 2) (b / 2),
  spare_fuel (λ y. zero) min (a - suc a / 2) a (suc a / 2) (b / 2) (omega arith),
)

-- Half of a mask is the next smaller mask, and a remainder is made of the lowest bit and the rest.
low_half : (k : ℕ) → ((2 ^ suc k - 1) / 2 ≡ 2 ^ k - 1) × ((2 ^ suc k - 1) % 2 ≡ 1)
low_half k = omega (arith, pow-suc 2 k, one-le-pow k 2)

mod_halves : (k a : ℕ) → a % 2 ^ suc k ≡ a / 2 % 2 ^ k * 2 + a % 2
mod_halves k a =
    let whole : a ≡ a / 2 / 2 ^ k * 2 ^ suc k + (a / 2 % 2 ^ k * 2 + a % 2) =
      omega (arith, div-add-mod' (a / 2) (2 ^ k), double_shift (a / 2 / 2 ^ k) k) in
    let small : a / 2 % 2 ^ k * 2 + a % 2 < 2 ^ suc k =
      omega (arith, pow-suc 2 k, mod-lt (a / 2) {m = 2 ^ k} (one-le-pow k 2 (omega arith))) in
    ap (λ (t : ℕ). t % 2 ^ suc k) whole
    ∙ mul-add-mod_self_right (a / 2 / 2 ^ k) (2 ^ suc k) _
    ∙ mod-eq_of_lt small

pub bit_and_low : (k a : ℕ) → bit_and (2 ^ k - 1) a ≡ a % 2 ^ k
bit_and_low zero a = omega (arith, bit_and-zero_left a)
bit_and_low (suc k) a = ground (
  arith,
  bit_and_halves (2 ^ suc k - 1) a,
  pow-suc 2 k,
  one-le-pow k 2,
  low_half k,
  bit_and_low k (a / 2),
  mod_halves k a,
)
