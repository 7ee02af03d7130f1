-- ===== src/Handle/Announce.antt =====
-- `handleAnnounce` of PTPWRd/protocol.c. `header` points to msgTmpHeader; the message is unpacked into
-- msgTmp.announce, the only member of the union msgTmp that is kept: no other one is read again.
use ptp_noposix.Prelude.{Bool, true, if◌then◌else◌, set}
use ptp_noposix.Prelude.Int.{ℤ, pos, ltb_ℤ}
use ptp_noposix.Timer.{timer_start}
use ptp_noposix.Constants.{PtpState, announce_length}
use ptp_noposix.Datatypes.{MsgHeader, PtpClockDs, PtpPortDs, RunTimeOpts}
use ptp_noposix.Msg.Announce.{msg_unpack_announce}
use ptp_noposix.Bmc.Best.{record_at}
use ptp_noposix.Foreign.{unpacked, add_foreign, msg_is_from_current_parent}
use ptp_noposix.Port.{Answered, Sys, with_timers, receipt_interval, to_faulty}
use ptp_noposix.Issue.{on_port}

unfoldable pub restart_receipt : Answered → PtpPortDs → PtpPortDs
restart_receipt a port =
    with_timers
      (λ t. record t {
        announce_receipt = timer_start a.tics t.announce_receipt (receipt_interval port);
      })
      port

-- A message of the parent is stored in the best record.
unfoldable pub refresh_parent : PtpPortDs → PtpPortDs
refresh_parent port =
    let best = port.foreign_record_best in
    record port {
      msg_tmp_announce = msg_unpack_announce port.msg_tmp_announce port.msg_ibuf;
      foreign = set port.foreign best (unpacked port.msg_ibuf (record_at port.foreign best));
    }

unfoldable pub announce_to_slave : Answered → MsgHeader → PtpClockDs → PtpPortDs → PtpPortDs
announce_to_slave a header clock port =
    let noted = record port { record_update = true } in
    restart_receipt a (
      if msg_is_from_current_parent header clock
      then refresh_parent noted
      else add_foreign port.msg_ibuf header noted)

unfoldable pub announce_to_master : MsgHeader → PtpPortDs → PtpPortDs
announce_to_master header port = record (add_foreign port.msg_ibuf header port) {
  record_update = true;
}

-- The switch on the state of the port.
unfoldable pub announce_in :
    Answered → MsgHeader → (is_from_self : Bool) → PtpClockDs → PtpState → PtpPortDs → PtpPortDs
announce_in a header is_from_self clock PtpState.initializing port = port
announce_in a header is_from_self clock PtpState.faulty port = port
announce_in a header is_from_self clock PtpState.disabled port = port
announce_in a header is_from_self clock PtpState.uncalibrated port =
    if is_from_self then port else announce_to_slave a header clock port
announce_in a header is_from_self clock PtpState.slave port =
    if is_from_self then port else announce_to_slave a header clock port
announce_in a header is_from_self clock state port =
    if is_from_self then port else announce_to_master header port

unfoldable pub handle_announce :
    Answered → RunTimeOpts → MsgHeader → (length : ℤ) → (is_from_self : Bool) → Sys → Sys
handle_announce a opts header length is_from_self sys =
    if ltb_ℤ length (pos announce_length)
    then on_port (to_faulty opts) sys
    else on_port (announce_in a header is_from_self sys.clock sys.port.port_state) sys
