-- ===== src/Prelude/Int.antt =====
-- Signed integers over the native numbers, under the library's names (its ℤ stands on the unary
-- ℕ), and the conversions of C to the signed widths, which wrap.
use ptp_noposix.Prelude.{
  ℕ, suc, ◌+◌, ◌-◌, ◌*◌, ◌/◌, ◌%◌, ◌^◌, ◌≤◌, ◌<◌, ◌≡◌, ◌⊎◌, inl, inr, ap, refl, Bool, arith, ltb,
  ◌==◌, leb, if◌then◌else◌,
}

-- `negsuc n` is -(n + 1).
pub data ℤ : Type 0 where
  pos : ℕ → ℤ
  negsuc : ℕ → ℤ

abbrev pub pos_part : ℤ → ℕ
pos_part (pos n) = n
pos_part (negsuc n) = 0

abbrev pub neg_part : ℤ → ℕ
neg_part (pos n) = 0
neg_part (negsuc n) = suc n

-- a - b, as an integer.
abbrev pub sub_ℕ : ℕ → ℕ → ℤ
sub_ℕ a b = if leb b a then pos (a - b) else negsuc (b - a - 1)

infixl 65 ◌+ℤ◌ ◌-ℤ◌
infix 50 ◌≤ℤ◌
unfoldable pub ◌+ℤ◌ : ℤ → ℤ → ℤ
a +ℤ b = sub_ℕ (pos_part a + pos_part b) (neg_part a + neg_part b)

unfoldable pub ◌-ℤ◌ : ℤ → ℤ → ℤ
a -ℤ b = sub_ℕ (pos_part a + neg_part b) (neg_part a + pos_part b)

unfoldable pub neg : ℤ → ℤ
neg a = sub_ℕ (neg_part a) (pos_part a)

-- a * n for a constant n.
unfoldable pub scale : ℕ → ℤ → ℤ
scale n a = sub_ℕ (pos_part a * n) (neg_part a * n)

abbrev pub ◌≤ℤ◌ : ℤ → ℤ → Type 0
a ≤ℤ b = pos_part a + neg_part b ≤ pos_part b + neg_part a

abbrev pub ltb_ℤ : ℤ → ℤ → Bool
ltb_ℤ a b = ltb (pos_part a + neg_part b) (pos_part b + neg_part a)

abbrev pub leb_ℤ : ℤ → ℤ → Bool
leb_ℤ a b = leb (pos_part a + neg_part b) (pos_part b + neg_part a)

abbrev pub eqb_ℤ : ℤ → ℤ → Bool
eqb_ℤ a b = (pos_part a + neg_part b) == (pos_part b + neg_part a)

-- The product.
infixl 75 ◌*ℤ◌
unfoldable pub ◌*ℤ◌ : ℤ → ℤ → ℤ
a *ℤ b =
    sub_ℕ (pos_part a * pos_part b + neg_part a * neg_part b)
      (pos_part a * neg_part b + neg_part a * pos_part b)

-- The division of C, which truncates towards zero.
unfoldable pub quot : ℤ → ℕ → ℤ
quot a n = sub_ℕ (pos_part a / n) (neg_part a / n)

-- The remainder of C, with the sign of the dividend.
unfoldable pub rem : ℤ → ℕ → ℤ
rem a n = sub_ℕ (pos_part a % n) (neg_part a % n)

-- `x >> k` of a signed word: the quotient is rounded down.
unfoldable pub asr : ℤ → ℕ → ℤ
asr (pos n) k = pos (n / 2 ^ k)
asr (negsuc n) k = negsuc (n / 2 ^ k)

-- The bit pattern of an integer in 32 or 64 bits, and the `int` with a given pattern.
abbrev pub pattern32 : ℤ → ℕ
pattern32 a = (pos_part a % 2 ^ 32 + (2 ^ 32 - neg_part a % 2 ^ 32)) % 2 ^ 32

abbrev pub pattern64 : ℤ → ℕ
pattern64 a = (pos_part a % 2 ^ 64 + (2 ^ 64 - neg_part a % 2 ^ 64)) % 2 ^ 64

abbrev pub signed32 : ℕ → ℤ
signed32 w = if ltb w (2 ^ 31) then pos w else negsuc (2 ^ 32 - w - 1)

abbrev pub signed16 : ℕ → ℤ
signed16 w = if ltb w (2 ^ 15) then pos w else negsuc (2 ^ 16 - w - 1)

-- Conversion to `int`.
unfoldable pub i32 : ℤ → ℤ
i32 a = signed32 (pattern32 a)

abbrev pub signed64 : ℕ → ℤ
signed64 w = if ltb w (2 ^ 63) then pos w else negsuc (2 ^ 64 - w - 1)

-- Conversion to `int64_t`.
unfoldable pub i64 : ℤ → ℤ
i64 a = signed64 (pattern64 a)

abbrev pub IsI64 : ℤ → Type 0
IsI64 a = (pos_part a < 2 ^ 63) × (neg_part a ≤ 2 ^ 63)

pub i64_fits : (a : ℤ) → IsI64 a → i64 a ≡ a
unfolding i64
i64_fits (pos n) h = ground arith
i64_fits (negsuc n) h = ground arith

pub i64_parts :
    (a : ℤ) → IsI64 a → (pos_part (i64 a) ≡ pos_part a) × (neg_part (i64 a) ≡ neg_part a)
i64_parts a h = (ap pos_part (i64_fits a h), ap neg_part (i64_fits a h))

abbrev pub IsI32 : ℤ → Type 0
IsI32 a = (pos_part a < 2 ^ 31) × (neg_part a ≤ 2 ^ 31)

-- A value in range is converted to itself.
pub i32_fits : (a : ℤ) → IsI32 a → i32 a ≡ a
unfolding i32
i32_fits (pos n) h = ground arith
i32_fits (negsuc n) h = ground arith

-- One lemma for each operation lets `omega` work with the operations shut. (`-` stops at 0.)
pub +ℤ_parts :
    (a b : ℤ)
    → (pos_part (a +ℤ b) ≡ pos_part a + pos_part b - (neg_part a + neg_part b))
      × (neg_part (a +ℤ b) ≡ neg_part a + neg_part b - (pos_part a + pos_part b))
unfolding ◌+ℤ◌
+ℤ_parts a b = ground arith

pub -ℤ_parts :
    (a b : ℤ)
    → (pos_part (a -ℤ b) ≡ pos_part a + neg_part b - (neg_part a + pos_part b))
      × (neg_part (a -ℤ b) ≡ neg_part a + pos_part b - (pos_part a + neg_part b))
unfolding ◌-ℤ◌
-ℤ_parts a b = ground arith

-- The same without subtraction, for equations between sums.
pub +ℤ_balance :
    (a b : ℤ)
    → pos_part (a +ℤ b) + neg_part a + neg_part b ≡ neg_part (a +ℤ b) + pos_part a + pos_part b
+ℤ_balance a b = omega (arith, +ℤ_parts a b)

pub -ℤ_balance :
    (a b : ℤ)
    → pos_part (a -ℤ b) + neg_part a + pos_part b ≡ neg_part (a -ℤ b) + pos_part a + neg_part b
-ℤ_balance a b = omega (arith, -ℤ_parts a b)

pub quot_parts :
    (a : ℤ) (n : ℕ)
    → (pos_part (quot a n) ≡ pos_part a / n) × (neg_part (quot a n) ≡ neg_part a / n)
unfolding quot
quot_parts (pos k) n = ground arith
quot_parts (negsuc k) n = ground arith

pub rem_parts :
    (a : ℤ) (n : ℕ) → (pos_part (rem a n) ≡ pos_part a % n) × (neg_part (rem a n) ≡ neg_part a % n)
unfolding rem
rem_parts (pos k) n = ground arith
rem_parts (negsuc k) n = ground arith

pub scale_parts :
    (n : ℕ) (a : ℤ)
    → (pos_part (scale n a) ≡ pos_part a * n) × (neg_part (scale n a) ≡ neg_part a * n)
unfolding scale
scale_parts n (pos k) = ground arith
scale_parts n (negsuc k) = ground arith

pub neg_parts : (a : ℤ) → (pos_part (neg a) ≡ neg_part a) × (neg_part (neg a) ≡ pos_part a)
unfolding neg
neg_parts a = ground arith

pub neg-neg : (a : ℤ) → neg (neg a) ≡ a
unfolding neg
neg-neg a = ground arith

pub one_part : (a : ℤ) → (pos_part a ≡ 0) ⊎ (neg_part a ≡ 0)
one_part (pos n) = inr refl
one_part (negsuc n) = inl refl

pub i32_parts :
    (a : ℤ) → IsI32 a → (pos_part (i32 a) ≡ pos_part a) × (neg_part (i32 a) ≡ neg_part a)
i32_parts a h = (ap pos_part (i32_fits a h), ap neg_part (i32_fits a h))

pub eq_of_parts : (a b : ℤ) → pos_part a + neg_part b ≡ pos_part b + neg_part a → a ≡ b
eq_of_parts a b h = ground arith

pub ruleset balance = (arith, +ℤ_balance, -ℤ_balance, eq_of_parts)

-- A number that is the sum of two others, in parts, and within the bounds of their parts.
abbrev pub IsSum : ℤ → ℤ → ℤ → Type 0
IsSum s a b =
    (pos_part s + neg_part a + neg_part b ≡ neg_part s + pos_part a + pos_part b)
    × (pos_part s ≤ pos_part a + pos_part b)
    × (neg_part s ≤ neg_part a + neg_part b)

abbrev pub IsDifference : ℤ → ℤ → ℤ → Type 0
IsDifference d a b =
    (pos_part d + neg_part a + pos_part b ≡ neg_part d + pos_part a + neg_part b)
    × (pos_part d ≤ pos_part a + neg_part b)
    × (neg_part d ≤ neg_part a + pos_part b)

module _ (a b : ℤ) where
  pub add_32 :
      pos_part a + pos_part b < 2 ^ 31 → neg_part a + neg_part b ≤ 2 ^ 31 → IsSum (i32 (a +ℤ b)) a b
  add_32 hp hn =
      omega (arith, +ℤ_parts a b, i32_parts (a +ℤ b) (omega (arith, hp, hn, +ℤ_parts a b)))

  pub add_64 :
      pos_part a + pos_part b < 2 ^ 63 → neg_part a + neg_part b ≤ 2 ^ 63 → IsSum (i64 (a +ℤ b)) a b
  add_64 hp hn =
      omega (arith, +ℤ_parts a b, i64_parts (a +ℤ b) (omega (arith, hp, hn, +ℤ_parts a b)))

  pub sub_32 :
      pos_part a + neg_part b < 2 ^ 31
      → neg_part a + pos_part b ≤ 2 ^ 31
      → IsDifference (i32 (a -ℤ b)) a b
  sub_32 hp hn =
      omega (arith, -ℤ_parts a b, i32_parts (a -ℤ b) (omega (arith, hp, hn, -ℤ_parts a b)))

  pub sub_64 :
      pos_part a + neg_part b < 2 ^ 63
      → neg_part a + pos_part b ≤ 2 ^ 63
      → IsDifference (i64 (a -ℤ b)) a b
  sub_64 hp hn =
      omega (arith, -ℤ_parts a b, i64_parts (a -ℤ b) (omega (arith, hp, hn, -ℤ_parts a b)))
