-- ===== src/Msg/RoundTrip.antt =====
-- What a receiver unpacks from the messages that PTPWRd/dep/msg.c packs.
pub mod Announce
pub mod Signaling
use ptp_noposix.Prelude.{
  ℕ, zero, suc, ◌+◌, ◌*◌, ◌/◌, ◌%◌, ◌^◌, ◌<◌, ◌≤◌, ◌≡◌, refl, ap, ◌∙◌, Bool, true, ◌==◌, ==_iff,
  bit_and, bit_or, arith, u16, u32, ◌>>>◌,
}
use ptp_noposix.Prelude.Bits.{every_below, every_below_at}
use ptp_noposix.Prelude.Int.{ℤ, pos, negsuc, IsI32, pattern32, signed32}
use ptp_noposix.Time.{Timestamp}
use ptp_noposix.Datatypes.{Buf, MsgHeader, PtpPortDs, PtpClockDs}
use ptp_noposix.Buf.{
  get_be16, get_identity, put, put_be16, put_be32, clear, put_identity, set_message_type,
}
use ptp_noposix.Buf.Laws.{read16, read32}
use ptp_noposix.Msg.Header.{msg_unpack_header, msg_pack_header}
use ptp_noposix.Msg.Event.{
  msg_pack_sync, msg_unpack_sync, msg_pack_follow_up, msg_unpack_follow_up, msg_pack_delay_req,
  msg_unpack_delay_req, msg_pack_delay_resp, msg_unpack_delay_resp,
}
use ptp_noposix.Msg.Peer.{msg_pack_pdelay_resp_follow_up, msg_unpack_pdelay_resp_follow_up}

-- A message type put into the first octet is read back; the upper half stays.
abbrev type_kept : ℕ → Bool
type_kept x = every_below (λ t. bit_and (bit_or (bit_and x 0xF0) t) 0x0F == t) 16

type_table : every_below type_kept 256 ≡ true
unfolding every_below
type_table = refl

pub message_type_read : (t x : ℕ) → x < 256 → t < 16 → bit_and (bit_or (bit_and x 0xF0) t) 0x0F ≡ t
message_type_read t x hx ht = (==_iff _ t).0 (
    every_below_at (λ t. bit_and (bit_or (bit_and x 0xF0) t) 0x0F == t) 16 t ht
      (every_below_at type_kept 256 x hx type_table))

-- The words of a time fit their widths.
abbrev pub IsTimestamp : Timestamp → Type 0
IsTimestamp t =
    (t.seconds_field.msb < 2 ^ 16) × (t.seconds_field.lsb < 2 ^ 32) × (t.nanoseconds_field < 2 ^ 32)

timestamp_eq :
    {t : Timestamp} {a b c : ℕ}
    → a ≡ t.seconds_field.msb
    → b ≡ t.seconds_field.lsb
    → c ≡ t.nanoseconds_field
    → record { seconds_field = record { lsb = b; msb = a }; nanoseconds_field = c } ≡ t
timestamp_eq p q r =
    λ i. record { seconds_field = record { lsb = q i; msb = p i }; nanoseconds_field = r i }

-- The receiver of a Sync message reads its type, its length, its sequence id, the sender that the
-- header of the buffer had, and the time in it, if the first octet of the buffer is an octet and
-- the time and the sequence id fit their fields.
pub unpack-pack_sync :
    (t : Timestamp) (port : PtpPortDs) (buf : Buf)
    → buf 0 < 256
    → IsTimestamp t
    → port.sent_sync_sequence_id < 2 ^ 16
    → let out = msg_pack_sync t port buf in
      let h = msg_unpack_header out in
      (h.message_type ≡ 0)
      × (h.message_length ≡ 44)
      × (h.sequence_id ≡ port.sent_sync_sequence_id)
      × (h.source_port_identity ≡ (msg_unpack_header buf).source_port_identity)
      × (msg_unpack_sync out ≡ t)
unfolding msg_pack_sync msg_unpack_header msg_unpack_sync put_be16 put_be32 get_be16 clear
    set_message_type get_identity
unpack-pack_sync t port buf h0 ht hs =
    let out = msg_pack_sync t port buf in
    (
      message_type_read 0 (buf 0) h0 (omega arith),
      refl,
      read16 30 port.sent_sync_sequence_id out refl refl hs,
      refl,
      timestamp_eq (read16 34 t.seconds_field.msb out refl refl ht.0)
          (read32 36 t.seconds_field.lsb out refl refl refl refl ht.1)
          (read32 40 t.nanoseconds_field out refl refl refl refl ht.2),
    )

-- The wire form of a hardware time: 48 bits of seconds.
abbrev pub wire_time : ℕ → ℕ → Timestamp
wire_time sec nsec = record {
  seconds_field = record { msb = u16 (sec >>> 32); lsb = u32 sec };
  nanoseconds_field = nsec;
}

-- A Follow_up that is packed after the sequence id was counted up carries the sequence id of its
-- Sync, across the wrap of the counter, and the time at which the Sync was sent, if the first octet
-- of the buffer is an octet and the nanoseconds fit in 32 bits.
pub unpack-pack_follow_up :
    (port : PtpPortDs) (buf : Buf) (sync_id : ℕ)
    → buf 0 < 256
    → sync_id < 2 ^ 16
    → port.sent_sync_sequence_id ≡ u16 (sync_id + 1)
    → port.synch_tx_ts.nsec < 2 ^ 32
    → let out = msg_pack_follow_up port buf in
      let h = msg_unpack_header out in
      (h.message_type ≡ 8)
      × (h.message_length ≡ 44)
      × (h.sequence_id ≡ sync_id)
      × (msg_unpack_follow_up out ≡ wire_time port.synch_tx_ts.sec port.synch_tx_ts.nsec)
unfolding msg_pack_follow_up msg_unpack_header msg_unpack_follow_up put_be16 put_be32 get_be16 clear
    set_message_type get_identity
unpack-pack_follow_up port buf sync_id h0 hs e hn =
    let out = msg_pack_follow_up port buf in
    (
      message_type_read 8 (buf 0) h0 (omega arith),
      refl,
      read16 30 (u16 (port.sent_sync_sequence_id + 65535)) out refl refl (omega arith)
          ∙ omega (arith, e),
      timestamp_eq (read16 34 (u16 (port.synch_tx_ts.sec >>> 32)) out refl refl (omega arith))
          (read32 36 (u32 port.synch_tx_ts.sec) out refl refl refl refl (omega arith))
          (read32 40 port.synch_tx_ts.nsec out refl refl refl refl hn),
    )

-- The receiver of a Delay_Req message reads its type, its length, its sequence id, the sender that
-- the header of the buffer had, and the time in it, if the first octet of the buffer is an octet
-- and the time and the sequence id fit their fields.
pub unpack-pack_delay_req :
    (t : Timestamp) (port : PtpPortDs) (buf : Buf)
    → buf 0 < 256
    → IsTimestamp t
    → port.sent_delay_req_sequence_id < 2 ^ 16
    → let out = msg_pack_delay_req t port buf in
      let h = msg_unpack_header out in
      (h.message_type ≡ 1)
      × (h.message_length ≡ 44)
      × (h.sequence_id ≡ port.sent_delay_req_sequence_id)
      × (h.source_port_identity ≡ (msg_unpack_header buf).source_port_identity)
      × (msg_unpack_delay_req out ≡ t)
unfolding msg_pack_delay_req msg_unpack_header msg_unpack_delay_req put_be16 put_be32 get_be16 clear
    set_message_type get_identity
unpack-pack_delay_req t port buf h0 ht hs =
    let out = msg_pack_delay_req t port buf in
    (
      message_type_read 1 (buf 0) h0 (omega arith),
      refl,
      read16 30 port.sent_delay_req_sequence_id out refl refl hs,
      refl,
      timestamp_eq (read16 34 t.seconds_field.msb out refl refl ht.0)
          (read32 36 t.seconds_field.lsb out refl refl refl refl ht.1)
          (read32 40 t.nanoseconds_field out refl refl refl refl ht.2),
    )

signed32_pattern : (w : ℕ) (a : ℤ) → w ≡ pattern32 a → IsI32 a → signed32 w ≡ a
signed32_pattern w (pos n) e h = ground arith
signed32_pattern w (negsuc n) e h = ground arith

-- A Delay_Resp message carries the sequence id, the domain and the correction of the request and
-- the port identity of its sender, with the time at which the request arrived, if the first octet
-- of the buffer is an octet and the fields of the request and the nanoseconds fit their widths.
pub unpack-pack_delay_resp :
    (request : MsgHeader) (port : PtpPortDs) (buf : Buf)
    → buf 0 < 256
    → request.sequence_id < 2 ^ 16
    → request.source_port_identity.port_number < 2 ^ 16
    → request.correctionfield.lsb < 2 ^ 32
    → IsI32 request.correctionfield.msb
    → port.current_rx_ts.nsec < 2 ^ 32
    → let out = msg_pack_delay_resp request port buf in
      let h = msg_unpack_header out in
      let resp = msg_unpack_delay_resp out in
      (h.message_type ≡ 9)
      × (h.message_length ≡ 54)
      × (h.sequence_id ≡ request.sequence_id)
      × (h.domain_number ≡ request.domain_number)
      × (h.correctionfield.msb ≡ request.correctionfield.msb)
      × (h.correctionfield.lsb ≡ request.correctionfield.lsb)
      × (resp.requesting_port_identity.clock_identity ≡ request.source_port_identity.clock_identity)
      × (resp.requesting_port_identity.port_number ≡ request.source_port_identity.port_number)
      × (resp.receive_timestamp ≡ wire_time port.current_rx_ts.sec port.current_rx_ts.nsec)
unfolding msg_pack_delay_resp msg_unpack_header msg_unpack_delay_resp put_be16 put_be32 get_be16
    clear set_message_type get_identity put_identity
unpack-pack_delay_resp request port buf h0 hs hp hl hm hn =
    let out = msg_pack_delay_resp request port buf in
    let msb = request.correctionfield.msb in
    (
      message_type_read 9 (buf 0) h0 (omega arith),
      refl,
      read16 30 request.sequence_id out refl refl hs,
      refl,
      signed32_pattern _ msb (read32 8 (pattern32 msb) out refl refl refl refl (omega arith)) hm,
      read32 12 request.correctionfield.lsb out refl refl refl refl hl,
      refl,
      read16 52 request.source_port_identity.port_number out refl refl hp,
      timestamp_eq (read16 34 (u16 (port.current_rx_ts.sec >>> 32)) out refl refl (omega arith))
          (read32 36 (u32 port.current_rx_ts.sec) out refl refl refl refl (omega arith))
          (read32 40 port.current_rx_ts.nsec out refl refl refl refl hn),
    )

-- A Pdelay_Resp_Follow_Up message carries the sequence id of the request that the port keeps, the
-- correction and the port identity of the sender of the given header, and the time at which the
-- answer was sent, if the first octet of the buffer is an octet and the fields and the nanoseconds
-- fit their widths.
pub unpack-pack_pdelay_resp_follow_up :
    (request : MsgHeader) (port : PtpPortDs) (buf : Buf)
    → buf 0 < 256
    → port.pdelay_req_header.sequence_id < 2 ^ 16
    → request.source_port_identity.port_number < 2 ^ 16
    → request.correctionfield.lsb < 2 ^ 32
    → IsI32 request.correctionfield.msb
    → port.pdelay_resp_tx_ts.nsec < 2 ^ 32
    → let out = msg_pack_pdelay_resp_follow_up request port buf in
      let h = msg_unpack_header out in
      let resp = msg_unpack_pdelay_resp_follow_up out in
      (h.message_type ≡ 10)
      × (h.message_length ≡ 54)
      × (h.sequence_id ≡ port.pdelay_req_header.sequence_id)
      × (h.correctionfield.msb ≡ request.correctionfield.msb)
      × (h.correctionfield.lsb ≡ request.correctionfield.lsb)
      × (resp.requesting_port_identity.clock_identity ≡ request.source_port_identity.clock_identity)
      × (resp.requesting_port_identity.port_number ≡ request.source_port_identity.port_number)
      × (resp.receive_timestamp ≡ wire_time port.pdelay_resp_tx_ts.sec port.pdelay_resp_tx_ts.nsec)
unfolding msg_pack_pdelay_resp_follow_up msg_unpack_header msg_unpack_pdelay_resp_follow_up put_be16
    put_be32 get_be16 clear set_message_type get_identity put_identity
unpack-pack_pdelay_resp_follow_up request port buf h0 hs hp hl hm hn =
    let out = msg_pack_pdelay_resp_follow_up request port buf in
    let msb = request.correctionfield.msb in
    (
      message_type_read 10 (buf 0) h0 (omega arith),
      refl,
      read16 30 port.pdelay_req_header.sequence_id out refl refl hs,
      signed32_pattern _ msb (read32 8 (pattern32 msb) out refl refl refl refl (omega arith)) hm,
      read32 12 request.correctionfield.lsb out refl refl refl refl hl,
      refl,
      read16 52 request.source_port_identity.port_number out refl refl hp,
      timestamp_eq (read16 34 (u16 (port.pdelay_resp_tx_ts.sec >>> 32)) out refl refl (omega arith))
          (read32 36 (u32 port.pdelay_resp_tx_ts.sec) out refl refl refl refl (omega arith))
          (read32 40 port.pdelay_resp_tx_ts.nsec out refl refl refl refl hn),
    )
