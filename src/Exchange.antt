-- ===== src/Exchange.antt =====
-- Messages on their way between two ports: what the issuers of one port in PTPWRd/protocol.c leave in
-- its output buffer, given to `handle` of the other one.
pub mod Pair
pub mod Sync
pub mod Request
pub mod Phase
pub mod Delay
use ptp_noposix.Prelude.{
  ℕ, ◌%◌, ◌^◌, ◌<◌, ◌≡◌, refl, Bool, true, false, arith, bit_and, bit_or, ltb, ◌==◌, ==_iff,
}
use ptp_noposix.Prelude.Bits.{every_below, every_below_at}
use ptp_noposix.Prelude.Int.{pos}
use ptp_noposix.Datatypes.{Buf, MsgHeader}
use ptp_noposix.Msg.Header.{msg_unpack_header}
use ptp_noposix.Foreign.{same_source}
use ptp_noposix.Port.{Sys}
use ptp_noposix.Handle.{Received}
use ptp_noposix.Handle.Accepted.{IsAddressed}

-- The message of `length` octets in the buffer is received.
abbrev pub delivered : Buf → (length : ℕ) → Received → Received
delivered buf n r = record r { content = buf; length = pos n }

-- The header in the buffer is that of the parent of the receiver, in its version and domain, and the
-- receiver is not its own parent.
abbrev pub Hears : Sys → Buf → Type 0
Hears sys buf =
    IsAddressed (msg_unpack_header buf) sys
    × ((msg_unpack_header buf).source_port_identity ≡ sys.clock.parent_port_identity)
    × (same_source sys.port.port_identity sys.clock.parent_port_identity ≡ false)

-- The first octet with a message type put into it is an octet.
abbrev octet_kept : ℕ → Bool
octet_kept x = every_below (λ t. ltb (bit_or (bit_and x 0xF0) t) 256) 16

octet_table : every_below octet_kept 256 ≡ true
unfolding every_below
octet_table = refl

pub first_octet : (t x : ℕ) → x < 256 → t < 16 → bit_or (bit_and x 0xF0) t < 256
first_octet t x hx ht =
    let e : ltb (bit_or (bit_and x 0xF0) t) 256 ≡ true =
      every_below_at (λ s. ltb (bit_or (bit_and x 0xF0) s) 256) 16 t ht
        (every_below_at octet_kept 256 x hx octet_table) in
    ground (arith, e)
