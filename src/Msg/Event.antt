-- ===== src/Msg/Event.antt =====
-- Sync, Follow_up, Delay_Req and Delay_Resp messages of PTPWRd/dep/msg.c.
use ptp_noposix.Prelude.{◌+◌, u16, u32, ◌>>>◌}
use ptp_noposix.Prelude.Int.{pattern32}
use ptp_noposix.Time.{Timestamp}
use ptp_noposix.Constants.{sync_length, follow_up_length, delay_req_length, delay_resp_length}
use ptp_noposix.Datatypes.{Buf, MsgHeader, MsgDelayResp, PtpPortDs, WrTimestamp}
use ptp_noposix.Buf.{
  ◌▷◌, put, put_be16, put_be32, get_be16, get_be32, clear, put_identity, get_identity,
  set_message_type,
}

-- The three stores of a time at offset 34, and the three loads.
abbrev pub put_timestamp : Timestamp → Buf → Buf
put_timestamp t buf =
    buf
    ▷ put_be16 34 t.seconds_field.msb
    ▷ put_be32 36 t.seconds_field.lsb
    ▷ put_be32 40 t.nanoseconds_field

abbrev pub put_wr_timestamp : WrTimestamp → Buf → Buf
put_wr_timestamp t buf =
    buf ▷ put_be16 34 (u16 (t.sec >>> 32)) ▷ put_be32 36 (u32 t.sec) ▷ put_be32 40 t.nsec

abbrev pub get_timestamp : Buf → Timestamp
get_timestamp buf = record {
  seconds_field = record { msb = get_be16 34 buf; lsb = get_be32 36 buf };
  nanoseconds_field = get_be32 40 buf;
}

unfoldable pub msg_pack_sync : Timestamp → PtpPortDs → Buf → Buf
msg_pack_sync origin_timestamp port buf =
    buf
    ▷ set_message_type 0x00
    ▷ put_be16 2 sync_length
    ▷ put_be16 30 port.sent_sync_sequence_id
    ▷ put 32 0x00
    ▷ put 33 port.log_sync_interval
    ▷ clear 8 8
    ▷ put_timestamp origin_timestamp

unfoldable pub msg_unpack_sync : Buf → Timestamp
msg_unpack_sync buf = get_timestamp buf

-- The sequence id was already counted up when the Sync message was sent.
unfoldable pub msg_pack_follow_up : PtpPortDs → Buf → Buf
msg_pack_follow_up port buf =
    buf
    ▷ set_message_type 0x08
    ▷ put_be16 2 follow_up_length
    ▷ put_be16 30 (u16 (port.sent_sync_sequence_id + 65535))
    ▷ put 32 0x02
    ▷ put 33 port.log_sync_interval
    ▷ put_wr_timestamp port.synch_tx_ts

unfoldable pub msg_unpack_follow_up : Buf → Timestamp
msg_unpack_follow_up buf = get_timestamp buf

unfoldable pub msg_pack_delay_req : Timestamp → PtpPortDs → Buf → Buf
msg_pack_delay_req origin_timestamp port buf =
    buf
    ▷ set_message_type 0x01
    ▷ put_be16 2 delay_req_length
    ▷ put_be16 30 port.sent_delay_req_sequence_id
    ▷ put 32 0x01
    ▷ put 33 0x7F
    ▷ clear 8 8
    ▷ put_timestamp origin_timestamp

unfoldable pub msg_unpack_delay_req : Buf → Timestamp
msg_unpack_delay_req buf = get_timestamp buf

unfoldable pub msg_pack_delay_resp : MsgHeader → PtpPortDs → Buf → Buf
msg_pack_delay_resp header port buf =
    buf
    ▷ set_message_type 0x09
    ▷ put_be16 2 delay_resp_length
    ▷ put 4 header.domain_number
    ▷ clear 8 8
    ▷ put_be32 8 (pattern32 header.correctionfield.msb)
    ▷ put_be32 12 header.correctionfield.lsb
    ▷ put_be16 30 header.sequence_id
    ▷ put 32 0x03
    ▷ put 33 port.log_min_delay_req_interval
    ▷ put_wr_timestamp port.current_rx_ts
    ▷ put_identity 44 header.source_port_identity.clock_identity
    ▷ put_be16 52 header.source_port_identity.port_number

unfoldable pub msg_unpack_delay_resp : Buf → MsgDelayResp
msg_unpack_delay_resp buf = record {
  receive_timestamp = get_timestamp buf;
  requesting_port_identity = record {
    clock_identity = get_identity 44 buf;
    port_number = get_be16 52 buf;
  };
}
