-- ===== src/Msg/Announce.antt =====
-- `msgPackAnnounce` and `msgUnpackAnnounce` of PTPWRd/dep/msg.c.
use ptp_noposix.Prelude.{
  ℕ, ◌+◌, ◌-◌, ◌%◌, ◌^◌, Bool, ◌&&◌, ltb, ◌==◌, ◌!=◌, if◌then◌else◌, bit_and, bit_or, u8, u16, u32,
  ◌<<<◌, ◌>>>◌,
}
use ptp_noposix.Prelude.Int.{ℤ, pos_part, neg_part, signed16}
use ptp_noposix.Constants.{
  non_wr, wr_s_only, wr_is_calibrated, wr_is_wr_mode, announce_length, wr_announce_length,
  wr_announce_tlv_length, tlv_type_org_extension, wr_tlv_organization_id, wr_tlv_magic_number,
  wr_tlv_wr_version_number, ann_sufix,
}
use ptp_noposix.Datatypes.{Buf, MsgAnnounce, PtpClockDs, PtpPortDs}
use ptp_noposix.Buf.{
  ◌▷◌, put, put_be16, get_be16, clear, put_identity, get_identity, set_message_type,
}
use ptp_noposix.Msg.Event.{get_timestamp}

-- The port announces White Rabbit: `wrConfig != NON_WR && wrConfig != WR_S_ONLY`.
unfoldable pub announces_wr : PtpPortDs → Bool
announces_wr port = port.wr_config != non_wr && port.wr_config != wr_s_only

-- The bit pattern of an Integer16.
abbrev pub pattern16 : ℤ → ℕ
pattern16 a = (pos_part a % 2 ^ 16 + (2 ^ 16 - neg_part a % 2 ^ 16)) % 2 ^ 16

-- The flags of the suffix, from `wrConfig`, `calibrated` and `wrModeON`.
abbrev pub suffix_flags : ℕ → Bool → Bool → ℕ
suffix_flags wr_config calibrated wr_mode_on =
    let f0 = bit_or 0 wr_config in
    let f1 = if calibrated then bit_or wr_is_calibrated f0 else f0 in
    if wr_mode_on then bit_or wr_is_wr_mode f1 else f1

-- The first ten octets of an organization extension at offset `i`, less its length.
abbrev pub put_organization : ℕ → Buf → Buf
put_organization i buf =
    buf
    ▷ put_be16 i (u16 (wr_tlv_organization_id >>> 8))
    ▷ put_be16 (i + 2) (u16 (bit_or (wr_tlv_organization_id <<< 8) (wr_tlv_magic_number >>> 8)))
    ▷ put_be16 (i + 4) (u16 (bit_or (wr_tlv_magic_number <<< 8) wr_tlv_wr_version_number))

unfoldable pub put_suffix : PtpPortDs → Buf → Buf
put_suffix port buf =
    buf
    ▷ put_be16 64 tlv_type_org_extension
    ▷ put_be16 66 wr_announce_tlv_length
    ▷ put_organization 68
    ▷ put_be16 74 ann_sufix
    ▷ put_be16 76 (suffix_flags port.wr_config port.calibrated port.wr_mode_on)

-- The message, with the answer to `announces_wr`, which C asks for twice.
unfoldable pub put_announce : Bool → PtpClockDs → PtpPortDs → Buf → Buf
unfolding put_suffix
put_announce wr clock port buf =
    let common =
      buf
      ▷ set_message_type 0x0B
      ▷ put_be16 2 (if wr then wr_announce_length else announce_length)
      ▷ put_be16 30 port.sent_announce_sequence_id
      ▷ put 32 0x05
      ▷ put 33 port.log_announce_interval
      ▷ clear 34 10
      ▷ put_be16 44 (pattern16 clock.current_utc_offset)
      ▷ put 47 clock.grandmaster_priority1
      ▷ put 48 clock.clock_quality.clock_class
      ▷ put 49 clock.clock_quality.clock_accuracy
      ▷ put_be16 50 clock.clock_quality.offset_scaled_log_variance
      ▷ put 52 clock.grandmaster_priority2
      ▷ put_identity 53 clock.grandmaster_identity
      ▷ put 61 (clock.steps_removed % 256)
      ▷ put 62 ((clock.steps_removed >>> 8) % 256)
      ▷ put 63 clock.time_source in
    if wr then put_suffix port common else common

unfoldable pub msg_pack_announce : PtpClockDs → PtpPortDs → Buf → Buf
msg_pack_announce clock port buf = put_announce (announces_wr port) clock port buf

-- The identification of an organization extension at offset `i` is that of White Rabbit.
unfoldable pub is_wr_organization : ℕ → Buf → Bool
is_wr_organization i buf =
    let organization_id = bit_or (get_be16 (i + 2) buf >>> 8) (u32 (get_be16 i buf <<< 8)) in
    let magic_number =
      bit_or (get_be16 (i + 4) buf >>> 8) (bit_and 0xFF00 (get_be16 (i + 2) buf <<< 8)) in
    let version_number = bit_and 0xFF (get_be16 (i + 4) buf) in
    organization_id == wr_tlv_organization_id
    && magic_number == wr_tlv_magic_number
    && version_number == wr_tlv_wr_version_number

-- `old` is the structure that is written to: without a suffix of White Rabbit its flags stay. The
-- flags are an octet in the structure.
unfoldable pub msg_unpack_announce : MsgAnnounce → Buf → MsgAnnounce
unfolding is_wr_organization
msg_unpack_announce old buf = record {
  origin_timestamp = get_timestamp buf;
  current_utc_offset = signed16 (get_be16 44 buf);
  grandmaster_priority1 = buf 47;
  grandmaster_clock_quality = record {
    clock_class = buf 48;
    clock_accuracy = buf 49;
    offset_scaled_log_variance = get_be16 50 buf;
  };
  grandmaster_priority2 = buf 52;
  grandmaster_identity = get_identity 53 buf;
  steps_removed = u16 (bit_or (buf 61) (buf 62 <<< 8));
  time_source = buf 63;
  wr_flags =
      if ltb announce_length (get_be16 2 buf)
        && get_be16 64 buf == tlv_type_org_extension
        && is_wr_organization 68 buf
        && get_be16 74 buf == ann_sufix
      then u8 (get_be16 76 buf)
      else old.wr_flags;
}
