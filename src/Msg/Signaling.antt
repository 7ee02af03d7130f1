-- ===== src/Msg/Signaling.antt =====
-- `msgPackWRSignalingMsg` and `msgUnpackWRSignalingMsg` of PTPWRd/dep/msg.c.
use ptp_noposix.Prelude.{
  ℕ, ◌+◌, ◌||◌, not, ◌==◌, ◌!=◌, if◌then◌else◌, bit_and, bit_or, ◌<<<◌, ◌>>>◌,
}
use ptp_noposix.Constants.{
  non_wr, ann_sufix, calibrate, calibrated_id, tlv_type_org_extension, wr_signaling_msg_base_length,
}
use ptp_noposix.Datatypes.{Buf, PortIdentity, PtpClockDs, PtpPortDs}
use ptp_noposix.Buf.{
  ◌▷◌, put, put_be16, put_be32, get_be16, get_be32, put_identity, get_identity, set_message_type,
}
use ptp_noposix.Msg.Announce.{put_organization, is_wr_organization}

-- The switch on the message: the buffer, and the length that the message adds.
unfoldable pub put_wr_data : ℕ → PtpPortDs → Buf → Buf × ℕ
put_wr_data wr_message_id port buf =
    if wr_message_id == calibrate
    then (
      buf
          ▷ put_be16 56 (
              if port.calibrated
              then bit_or (port.cal_retry <<< 8) 0x0000
              else bit_or (port.cal_retry <<< 8) 0x0001)
          ▷ put_be32 58 port.cal_period,
      20,
    )
    else if wr_message_id == calibrated_id
    then (
      buf
          ▷ put_be32 56 port.delta_tx.msb
          ▷ put_be32 60 port.delta_tx.lsb
          ▷ put_be32 64 port.delta_rx.msb
          ▷ put_be32 68 port.delta_rx.lsb,
      24,
    )
    else (buf, 8)

-- The message, once it is to be made: the buffer, and the length of the message.
unfoldable pub build_wr_signaling : PtpClockDs → PtpPortDs → ℕ → Buf → Buf × ℕ
unfolding put_wr_data
build_wr_signaling clock port wr_message_id buf =
    let parent = clock.parent_port_identity in
    let begun =
      buf
      ▷ set_message_type 0x0C
      ▷ put 32 0x05
      ▷ put_identity 34 parent.clock_identity
      ▷ put_be16 42 parent.port_number
      ▷ put_be16 44 tlv_type_org_extension
      ▷ put_organization 48
      ▷ put_be16 54 wr_message_id in
    let (filled, len) = put_wr_data wr_message_id port begun in
    (
      filled ▷ put_be16 2 (wr_signaling_msg_base_length + len) ▷ put_be16 46 len,
      wr_signaling_msg_base_length + len,
    )

-- No message, of length 0, is made by a port that is not in a mode of White Rabbit.
unfoldable pub msg_pack_wr_signaling : PtpClockDs → PtpPortDs → ℕ → Buf → Buf × ℕ
msg_pack_wr_signaling clock port wr_message_id buf =
    if port.wr_mode == non_wr || wr_message_id == ann_sufix
    then (buf, 0)
    else build_wr_signaling clock port wr_message_id buf

-- The target of the message, the message id and the port. Where the extension is not that of White
-- Rabbit the id and the port stay.
unfoldable pub msg_unpack_wr_signaling : PtpPortDs → ℕ → Buf → PortIdentity × ℕ × PtpPortDs
unfolding is_wr_organization
msg_unpack_wr_signaling port wr_message_id buf =
    let target : PortIdentity = record {
      clock_identity = get_identity 34 buf;
      port_number = get_be16 42 buf;
    } in
    if get_be16 44 buf != tlv_type_org_extension || not (is_wr_organization 48 buf)
    then (target, wr_message_id, port)
    else let id = get_be16 54 buf in
      (
        target,
        id,
        if id == calibrate
            then record port {
              other_node_cal_send_pattern = bit_and 0x00FF (get_be16 56 buf);
              other_node_cal_retry = bit_and 0x00FF (get_be16 56 buf >>> 8);
              other_node_cal_period = get_be32 58 buf;
            }
            else if id == calibrated_id
            then record port {
              other_node_delta_tx = record { msb = get_be32 56 buf; lsb = get_be32 60 buf };
              other_node_delta_rx = record { msb = get_be32 64 buf; lsb = get_be32 68 buf };
            }
            else port,
      )
