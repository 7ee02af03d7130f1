-- ===== src/Buf.antt =====
-- Octets in a message buffer: the first helpers of PTPWRd/dep/msg.c, `memset` and `memcpy`. A store
-- of `flip16(x)` or `flip32(x)` (htons, htonl) writes the octets that `put_be16` or `put_be32` writes,
-- and a load that is flipped reads what `get_be16` or `get_be32` reads.
pub mod Laws
use ptp_noposix.Prelude.{
  ℕ, ◌+◌, ◌*◌, ◌/◌, ◌%◌, ◌^◌, bit_and, bit_or, ◌&&◌, ltb, leb, ◌==◌, if◌then◌else◌, ◌<<<◌, ◌>>>◌,
}
use ptp_noposix.Datatypes.{Buf, ClockIdentity}

-- `buf` after one statement after another.
infixl 20 ◌▷◌
abbrev pub ◌▷◌ {ℓ κ} : {A : Type ℓ} {B : Type κ} → A → (A → B) → B
x ▷ f = f x

abbrev pub put : ℕ → ℕ → Buf → Buf
put i v buf j = if j == i then v else buf j

unfoldable pub put_be16 : ℕ → ℕ → Buf → Buf
put_be16 i x buf = buf ▷ put i ((x >>> 8) % 256) ▷ put (i + 1) (x % 256)

unfoldable pub put_be32 : ℕ → ℕ → Buf → Buf
put_be32 i x buf =
    buf
    ▷ put i ((x >>> 24) % 256)
    ▷ put (i + 1) ((x >>> 16) % 256)
    ▷ put (i + 2) ((x >>> 8) % 256)
    ▷ put (i + 3) (x % 256)

unfoldable pub get_be32 : ℕ → Buf → ℕ
get_be32 i buf =
    let r1 = bit_or 0 (bit_and (buf i <<< 24) 0xFF000000) in
    let r2 = bit_or r1 (bit_and (buf (i + 1) <<< 16) 0x00FF0000) in
    let r3 = bit_or r2 (bit_and (buf (i + 2) <<< 8) 0x0000FF00) in
    bit_or r3 (bit_and (buf (i + 3) <<< 0) 0x000000FF)

unfoldable pub get_be16 : ℕ → Buf → ℕ
get_be16 i buf =
    let r1 = bit_or 0 (bit_and (buf i <<< 8) 0xFF00) in
    bit_or r1 (bit_and (buf (i + 1) <<< 0) 0x00FF)

-- memset(buf + i, 0, n).
unfoldable pub clear : ℕ → ℕ → Buf → Buf
clear i n buf j = if leb i j && ltb j (i + n) then 0 else buf j

-- memcpy of a clock identity into the buffer, and out of it.
unfoldable pub put_identity : ℕ → ClockIdentity → Buf → Buf
put_identity i c buf =
    buf
    ▷ put i c.o0
    ▷ put (i + 1) c.o1
    ▷ put (i + 2) c.o2
    ▷ put (i + 3) c.o3
    ▷ put (i + 4) c.o4
    ▷ put (i + 5) c.o5
    ▷ put (i + 6) c.o6
    ▷ put (i + 7) c.o7

unfoldable pub get_identity : ℕ → Buf → ClockIdentity
get_identity i buf = record {
  o0 = buf i;
  o1 = buf (i + 1);
  o2 = buf (i + 2);
  o3 = buf (i + 3);
  o4 = buf (i + 4);
  o5 = buf (i + 5);
  o6 = buf (i + 6);
  o7 = buf (i + 7);
}

-- `buf[0] = buf[0] & 0xF0; buf[0] = buf[0] | type`.
unfoldable pub set_message_type : ℕ → Buf → Buf
set_message_type type buf =
    let cleared = put 0 (bit_and (buf 0) 0xF0) buf in put 0 (bit_or (cleared 0) type) cleared
