-- ===== src/Msg/Peer.antt =====
-- The peer delay messages of PTPWRd/dep/msg.c. `msgPackPDelayResp` and `msgPackPDelayRespFollowUp`
-- take a Timestamp too, and do not use it.
use ptp_noposix.Prelude.Int.{pattern32}
use ptp_noposix.Time.{Timestamp}
use ptp_noposix.Constants.{pdelay_req_length, pdelay_resp_length, pdelay_resp_follow_up_length}
use ptp_noposix.Datatypes.{Buf, MsgHeader, MsgDelayResp, PtpPortDs}
use ptp_noposix.Buf.{
  ◌▷◌, put, put_be16, put_be32, get_be16, clear, put_identity, get_identity, set_message_type,
}
use ptp_noposix.Msg.Event.{put_timestamp, put_wr_timestamp, get_timestamp}

unfoldable pub msg_pack_pdelay_req : Timestamp → PtpPortDs → Buf → Buf
msg_pack_pdelay_req origin_timestamp port buf =
    buf
    ▷ set_message_type 0x02
    ▷ put_be16 2 pdelay_req_length
    ▷ put_be16 30 port.sent_pdelay_req_sequence_id
    ▷ put 32 0x05
    ▷ put 33 0x7F
    ▷ clear 8 8
    ▷ put_timestamp origin_timestamp
    ▷ clear 44 10

unfoldable pub msg_unpack_pdelay_req : Buf → Timestamp
msg_unpack_pdelay_req buf = get_timestamp buf

unfoldable pub msg_pack_pdelay_resp : MsgHeader → PtpPortDs → Buf → Buf
msg_pack_pdelay_resp header port buf =
    buf
    ▷ set_message_type 0x03
    ▷ put_be16 2 pdelay_resp_length
    ▷ put 4 header.domain_number
    ▷ clear 8 8
    ▷ put_be16 30 header.sequence_id
    ▷ put 32 0x05
    ▷ put 33 0x7F
    ▷ put_wr_timestamp port.current_rx_ts
    ▷ put_identity 44 header.source_port_identity.clock_identity
    ▷ put_be16 52 header.source_port_identity.port_number

-- MsgPDelayResp has the fields of MsgDelayResp.
unfoldable pub msg_unpack_pdelay_resp : Buf → MsgDelayResp
msg_unpack_pdelay_resp buf = record {
  receive_timestamp = get_timestamp buf;
  requesting_port_identity = record {
    clock_identity = get_identity 44 buf;
    port_number = get_be16 52 buf;
  };
}

-- The sequence id is that of the last request; the correction and the identity are those of `header`.
unfoldable pub msg_pack_pdelay_resp_follow_up : MsgHeader → PtpPortDs → Buf → Buf
msg_pack_pdelay_resp_follow_up header port buf =
    buf
    ▷ set_message_type 0x0A
    ▷ put_be16 2 pdelay_resp_follow_up_length
    ▷ put_be16 30 port.pdelay_req_header.sequence_id
    ▷ put 32 0x05
    ▷ put 33 0x7F
    ▷ put_be32 8 (pattern32 header.correctionfield.msb)
    ▷ put_be32 12 header.correctionfield.lsb
    ▷ put_wr_timestamp port.pdelay_resp_tx_ts
    ▷ put_identity 44 header.source_port_identity.clock_identity
    ▷ put_be16 52 header.source_port_identity.port_number

-- MsgPDelayRespFollowUp has the fields of MsgDelayResp.
unfoldable pub msg_unpack_pdelay_resp_follow_up : Buf → MsgDelayResp
msg_unpack_pdelay_resp_follow_up buf = record {
  receive_timestamp = get_timestamp buf;
  requesting_port_identity = record {
    clock_identity = get_identity 44 buf;
    port_number = get_be16 52 buf;
  };
}
