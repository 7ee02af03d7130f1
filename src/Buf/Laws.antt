-- ===== src/Buf/Laws.antt =====
-- Words in a buffer: what is loaded after a store.
use ptp_noposix.Prelude.{
  ℕ, ◌+◌, ◌*◌, ◌%◌, ◌^◌, ◌<◌, ◌≡◌, refl, Bool, true, bit_and, bit_or, arith, ◌==◌, ◌&&◌, ◌>>>◌,
}
use ptp_noposix.Prelude.Bits.{every_below, every_below_at, bit_or-zero_left, bit_or_disjoint}
use ptp_noposix.Datatypes.{Buf}
use ptp_noposix.Buf.{put_be16, put_be32, get_be16, get_be32}

-- A mask over an octet that is shifted to its place changes nothing.
abbrev masks : ℕ → Bool
masks x =
    (bit_and (x * 2 ^ 24) 0xFF000000 == x * 2 ^ 24)
    && (bit_and (x * 2 ^ 16) 0x00FF0000 == x * 2 ^ 16)
    && (bit_and (x * 2 ^ 8) 0xFF00 == x * 2 ^ 8)
    && (bit_and (x * 2 ^ 0) 0xFF == x)

mask_table : every_below masks 256 ≡ true
unfolding every_below
mask_table = refl

masked :
    (x : ℕ)
    → x < 256
    → (bit_and (x * 2 ^ 24) 0xFF000000 ≡ x * 2 ^ 24)
      × (bit_and (x * 2 ^ 16) 0x00FF0000 ≡ x * 2 ^ 16)
      × (bit_and (x * 2 ^ 8) 0xFF00 ≡ x * 2 ^ 8)
      × (bit_and (x * 2 ^ 0) 0xFF ≡ x)
masked x h = ground (arith, every_below_at masks 256 x h mask_table)

pub get_be16_octets :
    (i : ℕ) (buf : Buf)
    → buf i < 256
    → buf (i + 1) < 256
    → get_be16 i buf ≡ buf i * 256 + buf (i + 1)
unfolding get_be16
get_be16_octets i buf h0 h1 =
    rw
      (
        (masked (buf i) h0).2,
        (masked (buf (i + 1)) h1).3,
        bit_or-zero_left (buf i * 2 ^ 8),
        bit_or_disjoint 8 (buf i) (buf (i + 1)) h1,
      )
      refl

-- Octets put together from the highest to the lowest.
joined :
    (a b c d : ℕ)
    → b < 256
    → c < 256
    → d < 256
    → bit_or (bit_or (bit_or (a * 2 ^ 24) (b * 2 ^ 16)) (c * 2 ^ 8)) d
      ≡ a * 2 ^ 24 + b * 2 ^ 16 + c * 2 ^ 8 + d
joined a b c d hb hc hd =
    let e1 : a * 2 ^ 24 + b * 2 ^ 16 ≡ (a * 256 + b) * 2 ^ 16 = omega arith in
    let e2 : (a * 256 + b) * 2 ^ 16 + c * 2 ^ 8 ≡ ((a * 256 + b) * 256 + c) * 2 ^ 8 = omega arith in
    rw
      (
        bit_or_disjoint 24 a (b * 2 ^ 16) (omega arith),
        e1,
        bit_or_disjoint 16 (a * 256 + b) (c * 2 ^ 8) (omega arith),
        e2,
        bit_or_disjoint 8 ((a * 256 + b) * 256 + c) d hd,
      )
      refl

pub get_be32_octets :
    (i : ℕ) (buf : Buf)
    → buf i < 256
    → buf (i + 1) < 256
    → buf (i + 2) < 256
    → buf (i + 3) < 256
    → get_be32 i buf ≡ buf i * 2 ^ 24 + buf (i + 1) * 2 ^ 16 + buf (i + 2) * 2 ^ 8 + buf (i + 3)
unfolding get_be32
get_be32_octets i buf h0 h1 h2 h3 =
    rw
      (
        (masked (buf i) h0).0,
        (masked (buf (i + 1)) h1).1,
        (masked (buf (i + 2)) h2).2,
        (masked (buf (i + 3)) h3).3,
        bit_or-zero_left (buf i * 2 ^ 24),
      )
      (joined (buf i) (buf (i + 1)) (buf (i + 2)) (buf (i + 3)) h1 h2 h3)

-- A 16-bit and a 32-bit word are read back as they were stored, at any place.
pub get_be16-put_be16 : (i x : ℕ) (buf : Buf) → x < 2 ^ 16 → get_be16 i (put_be16 i x buf) ≡ x
unfolding put_be16
get_be16-put_be16 i x buf h = ground (arith, get_be16_octets i (put_be16 i x buf))

pub get_be32-put_be32 : (i x : ℕ) (buf : Buf) → x < 2 ^ 32 → get_be32 i (put_be32 i x buf) ≡ x
unfolding put_be32
get_be32-put_be32 i x buf h = ground (arith, get_be32_octets i (put_be32 i x buf))

-- A word is read from the octets that hold it.
pub read16 :
    (i x : ℕ) (buf : Buf)
    → buf i ≡ (x >>> 8) % 256
    → buf (i + 1) ≡ x % 256
    → x < 2 ^ 16
    → get_be16 i buf ≡ x
read16 i x buf e0 e1 h = ground (arith, get_be16_octets i buf)

pub read32 :
    (i x : ℕ) (buf : Buf)
    → buf i ≡ (x >>> 24) % 256
    → buf (i + 1) ≡ (x >>> 16) % 256
    → buf (i + 2) ≡ (x >>> 8) % 256
    → buf (i + 3) ≡ x % 256
    → x < 2 ^ 32
    → get_be32 i buf ≡ x
read32 i x buf e0 e1 e2 e3 h = ground (arith, get_be32_octets i buf)
