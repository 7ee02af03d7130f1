-- ===== src/Exchange/Pair.antt =====
-- A Sync and a Follow_up, each as a slave handles it.
use ptp_noposix.Prelude.{
  ◌+◌, ◌<◌, ◌≡◌, refl, ◌∙◌, true, false, ◌==◌, bit_and, if_true, if_false, u16, arith,
}
use ptp_noposix.Prelude.Int.{pos, eqb_ℤ}
use ptp_noposix.Time.{Timestamp, integer64_to_internal_time}
use ptp_noposix.Constants.{PtpState, sync_length, follow_up_length}
use ptp_noposix.Datatypes.{Buf, MsgHeader, PtpPortDs, RunTimeOpts}
use ptp_noposix.Datatypes.Empty.{empty_timestamp, empty_time_internal}
use ptp_noposix.Buf.{set_message_type, put_be16, put_be32, clear, get_be16, get_identity}
use ptp_noposix.Msg.Header.{msg_unpack_header}
use ptp_noposix.Msg.Event.{msg_pack_sync, msg_pack_follow_up}
use ptp_noposix.Foreign.{same_source, msg_is_from_current_parent}
use ptp_noposix.Foreign.Search.{same_source_refl}
use ptp_noposix.Port.{Answered, Sys}
use ptp_noposix.Issue.{on_port, transmit, issue_sync, issue_followup}
use ptp_noposix.Handle.{Received, store_message, read_message, dispatch, is_from_self, handle}
use ptp_noposix.Handle.Sync.{
  copy_time, note_sync, follows_master, time_of_stamp, handle_sync, matches_sync, accept_follow_up,
  handle_follow_up,
}
use ptp_noposix.Handle.Accepted.{IsAddressed, read_in, handle-dispatch}
use ptp_noposix.Exchange.{first_octet}

-- What a slave keeps of a two-step Sync message of its parent.
abbrev pub waits_for_follow : MsgHeader → PtpPortDs → PtpPortDs
waits_for_follow header port = record port {
  sync_receive_time = time_of_stamp port.current_rx_ts;
  waiting_for_follow = true;
  recv_sync_sequence_id = header.sequence_id;
  last_sync_correction_field =
      copy_time port.last_sync_correction_field
        (integer64_to_internal_time header.correctionfield empty_time_internal);
}

-- A message of the parent that the slave reads.
abbrev pub IsOfParent : MsgHeader → Sys → Type 0
IsOfParent header sys =
    IsAddressed header sys
    × (header.source_port_identity ≡ sys.clock.parent_port_identity)
    × (same_source sys.port.port_identity sys.clock.parent_port_identity ≡ false)
    × (sys.port.port_state ≡ PtpState.slave)

module _ (r : Received) (opts : RunTimeOpts) (sys : Sys) (header : MsgHeader) where
  pub handle-sync :
      msg_unpack_header r.content ≡ header
      → r.length ≡ pos sync_length
      → header.message_type ≡ 0
      → bit_and header.flag_field_0 2 ≡ 2
      → IsOfParent header sys
      → handle r opts sys ≡ on_port (waits_for_follow header) (read_in r sys)
  unfolding dispatch handle_sync is_from_self msg_is_from_current_parent follows_master
      store_message read_message note_sync
  handle-sync e len type two (addressed, source, other, slave) =
      handle-dispatch r opts sys sync_length len (omega arith) (rw e addressed)
      ∙ rw (e, type, len, slave, source, other, same_source_refl, two) refl

  pub handle-follow_up :
      msg_unpack_header r.content ≡ header
      → r.length ≡ pos follow_up_length
      → header.message_type ≡ 8
      → sys.port.waiting_for_follow ≡ true
      → sys.port.recv_sync_sequence_id ≡ header.sequence_id
      → IsOfParent header sys
      → handle r opts sys ≡ accept_follow_up r.reply opts r.garbage (read_in r sys)
  unfolding dispatch handle_follow_up is_from_self msg_is_from_current_parent follows_master
      store_message read_message matches_sync
  handle-follow_up e len type waits id (addressed, source, other, slave) =
      handle-dispatch r opts sys follow_up_length len (omega arith) (rw e addressed)
      ∙ rw (e, type, len, slave, source, other, same_source_refl, waits, id)
          (if_true {b = header.sequence_id == header.sequence_id} _ _ (ground arith))

-- The header in a buffer that a Sync or a Follow_up is packed into.
pub pack_sync-header :
    (t : Timestamp) (port : PtpPortDs) (buf : Buf)
    → let h = msg_unpack_header buf in
      let out = msg_unpack_header (msg_pack_sync t port buf) in
      (out.version_ptp ≡ h.version_ptp)
      × (out.domain_number ≡ h.domain_number)
      × (out.flag_field_0 ≡ h.flag_field_0)
      × (out.source_port_identity ≡ h.source_port_identity)
unfolding msg_pack_sync msg_unpack_header set_message_type put_be16 clear get_be16 get_identity
    put_be32
pack_sync-header t port buf = (refl, refl, refl, refl)

pub pack_follow_up-header :
    (port : PtpPortDs) (buf : Buf)
    → let h = msg_unpack_header buf in
      let out = msg_unpack_header (msg_pack_follow_up port buf) in
      (out.version_ptp ≡ h.version_ptp)
      × (out.domain_number ≡ h.domain_number)
      × (out.source_port_identity ≡ h.source_port_identity)
unfolding msg_pack_follow_up msg_unpack_header set_message_type put_be16 clear get_be16 get_identity
    put_be32
pack_follow_up-header port buf = (refl, refl, refl)

pub pack_sync-octet :
    (t : Timestamp) (port : PtpPortDs) (buf : Buf) → buf 0 < 256 → msg_pack_sync t port buf 0 < 256
unfolding msg_pack_sync set_message_type put_be16 clear put_be32
pack_sync-octet t port buf h = first_octet 0 (buf 0) h (omega arith)

-- The port of the master after the Sync, when its sender did not answer 0.
abbrev pub after_sync : Answered → PtpPortDs → PtpPortDs
after_sync a port = record port {
  msg_obuf = msg_pack_sync empty_timestamp port port.msg_obuf;
  synch_tx_ts = a.stamp;
  sent_sync_sequence_id = u16 (port.sent_sync_sequence_id + 1);
}

pub issue_sync-port :
    (a : Answered) (opts : RunTimeOpts) (sys : Sys)
    → eqb_ℤ a.sent (pos 0) ≡ false
    → (issue_sync a opts sys).port ≡ after_sync a sys.port
unfolding issue_sync transmit
issue_sync-port a opts sys sent = if_false _ _ sent

pub issue_followup-port :
    (a : Answered) (opts : RunTimeOpts) (sys : Sys)
    → eqb_ℤ a.sent (pos 0) ≡ false
    → (issue_followup a opts sys).port
      ≡ record (sys.port) { msg_obuf = msg_pack_follow_up sys.port sys.port.msg_obuf }
unfolding issue_followup transmit
issue_followup-port a opts sys sent = if_false _ _ sent
