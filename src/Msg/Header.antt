-- ===== src/Msg/Header.antt =====
-- `msgPackHeader` and `msgUnpackHeader` of PTPWRd/dep/msg.c.
use ptp_noposix.Prelude.{bit_and, if◌then◌else◌, ◌>>>◌}
use ptp_noposix.Prelude.Int.{signed32}
use ptp_noposix.Constants.{two_step_flag_bit}
use ptp_noposix.Datatypes.{Buf, MsgHeader, PtpClockDs, PtpPortDs}
use ptp_noposix.Buf.{◌▷◌, put, put_be16, get_be16, get_be32, clear, put_identity, get_identity}

unfoldable pub msg_unpack_header : Buf → MsgHeader
msg_unpack_header buf = record {
  transport_specific = buf 0 >>> 4;
  message_type = bit_and (buf 0) 0x0F;
  version_ptp = bit_and (buf 1) 0x0F;
  message_length = get_be16 2 buf;
  domain_number = buf 4;
  flag_field_0 = buf 6;
  flag_field_1 = buf 7;
  correctionfield = record { msb = signed32 (get_be32 8 buf); lsb = get_be32 12 buf };
  source_port_identity = record {
    clock_identity = get_identity 20 buf;
    port_number = get_be16 28 buf;
  };
  sequence_id = get_be16 30 buf;
  control_field = buf 32;
  log_message_interval = buf 33;
}

unfoldable pub msg_pack_header : PtpClockDs → PtpPortDs → Buf → Buf
msg_pack_header clock port buf =
    let started = buf ▷ put 0 0 ▷ put 1 port.version_number ▷ put 4 clock.domain_number in
    let flagged = if clock.two_step_flag then put 6 two_step_flag_bit started else started in
    flagged
    ▷ clear 8 8
    ▷ put_identity 20 port.port_identity.clock_identity
    ▷ put_be16 28 port.port_identity.port_number
    ▷ put 33 0x7F
