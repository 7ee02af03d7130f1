-- ===== src/Handle/Peer.antt =====
-- `handlePDelayReq`, `handlePDelayResp` and `handlePDelayRespFollowUp` of PTPWRd/protocol.c, which only
-- do something with the peer delay mechanism. `time` is when the message was received. The variables
-- that only the empty `updatePeerDelay` of PTPWRd/dep/servo.c is given are left out.
use ptp_noposix.Prelude.{◌==◌, ◌&&◌, not, Bool, true, false, if◌then◌else◌}
use ptp_noposix.Prelude.Int.{ℤ, pos, ◌-ℤ◌, ltb_ℤ, eqb_ℤ}
use ptp_noposix.Time.{TimeInternal, add_time, integer64_to_internal_time, to_internal_time}
use ptp_noposix.Constants.{
  PtpState, pdelay_req_length, pdelay_resp_length, pdelay_resp_follow_up_length,
}
use ptp_noposix.Datatypes.{MsgHeader, MsgDelayResp, PdelayTimes, PtpPortDs, RunTimeOpts}
use ptp_noposix.Datatypes.Empty.{empty_time_internal}
use ptp_noposix.Msg.Header.{msg_unpack_header}
use ptp_noposix.Msg.Peer.{msg_unpack_pdelay_resp, msg_unpack_pdelay_resp_follow_up}
use ptp_noposix.Foreign.{same_source}
use ptp_noposix.Port.{Answered, Sys, to_faulty}
use ptp_noposix.Issue.{on_port, issue_pdelay_resp, issue_pdelay_resp_follow_up}
use ptp_noposix.Handle.Sync.{copy_time, is_two_step}

abbrev pub on_times : (PdelayTimes → PdelayTimes) → PtpPortDs → PtpPortDs
on_times f port = record port { pdelay_times = f port.pdelay_times }

unfoldable pub note_pdelay_req : RunTimeOpts → TimeInternal → PtpPortDs → PtpPortDs
note_pdelay_req opts time port =
    on_times
      (λ p.
        (let sent = copy_time p.req_send_time time in
          record p { req_send_time = add_time sent sent opts.outbound_latency }))
      port

unfoldable pub answers_peer : PtpState → Bool
answers_peer PtpState.slave = true
answers_peer PtpState.master = true
answers_peer PtpState.passive = true
answers_peer _ = false

unfoldable pub handle_pdelay_req :
    Answered
    → RunTimeOpts
    → TimeInternal
    → MsgHeader
    → (length : ℤ) → (is_from_self : Bool) → Sys
    → Sys
handle_pdelay_req a opts time header length is_from_self sys =
    if opts.e2e_mode
    then sys
    else if ltb_ℤ length (pos pdelay_req_length)
    then on_port (to_faulty opts) sys
    else if answers_peer sys.port.port_state
    then if is_from_self
      then on_port (note_pdelay_req opts time) sys
      else issue_pdelay_resp a opts header (
          on_port (λ port. record port { pdelay_req_header = msg_unpack_header port.msg_ibuf }) sys)
    else sys

-- The test as it is written: it holds for the answer to the request that will be sent next.
unfoldable pub matches_pdelay_req : MsgHeader → MsgDelayResp → PtpPortDs → Bool
matches_pdelay_req header presp port =
    port.sent_pdelay_req_sequence_id == header.sequence_id
    && same_source port.port_identity presp.requesting_port_identity

unfoldable pub note_pdelay_resp :
    (garbage : TimeInternal) → TimeInternal → MsgHeader → MsgDelayResp → PtpPortDs → PtpPortDs
note_pdelay_resp garbage time header presp port =
    let correction = integer64_to_internal_time header.correctionfield empty_time_internal in
    let t2 = to_internal_time garbage presp.receive_timestamp in
    let received =
      on_times (λ p. record p { resp_receive_time = copy_time p.resp_receive_time time }) port in
    if is_two_step header
    then record (on_times (λ p. record p { req_receive_time = copy_time p.req_receive_time t2 })
        received) {
          last_pdelay_resp_correction_field =
              copy_time port.last_pdelay_resp_correction_field correction;
        }
    else received

-- A slave and a master do the same.
unfoldable pub exchanges_peer : PtpState → Bool
exchanges_peer PtpState.slave = true
exchanges_peer PtpState.master = true
exchanges_peer _ = false

unfoldable pub handle_pdelay_resp :
    Answered
    → RunTimeOpts
    → (garbage : TimeInternal) → TimeInternal
    → MsgHeader
    → (length : ℤ) → (is_from_self : Bool) → Sys
    → Sys
handle_pdelay_resp a opts garbage time header length is_from_self sys =
    let presp = msg_unpack_pdelay_resp sys.port.msg_ibuf in
    if opts.e2e_mode
    then sys
    else if ltb_ℤ length (pos pdelay_resp_length)
    then on_port (to_faulty opts) sys
    else if exchanges_peer sys.port.port_state
    then if is_from_self
      then issue_pdelay_resp_follow_up a opts sys.port.pdelay_req_header sys
      else if not (matches_pdelay_req header presp sys.port)
      then on_port (note_pdelay_resp garbage time header presp) sys
      else sys
    else sys

unfoldable pub note_pdelay_resp_follow_up : (garbage : TimeInternal) → PtpPortDs → PtpPortDs
note_pdelay_resp_follow_up garbage port =
    let t3 =
      to_internal_time garbage (msg_unpack_pdelay_resp_follow_up port.msg_ibuf).receive_timestamp in
    on_times (λ p. record p { resp_send_time = copy_time p.resp_send_time t3 }) port

-- The subtraction is one of `int`.
unfoldable pub handle_pdelay_resp_follow_up :
    RunTimeOpts → (garbage : TimeInternal) → MsgHeader → (length : ℤ) → Sys → Sys
handle_pdelay_resp_follow_up opts garbage header length sys =
    if opts.e2e_mode
    then sys
    else if ltb_ℤ length (pos pdelay_resp_follow_up_length)
    then on_port (to_faulty opts) sys
    else if exchanges_peer sys.port.port_state
        && eqb_ℤ (pos header.sequence_id) (pos sys.port.sent_pdelay_req_sequence_id -ℤ pos 1)
    then on_port (note_pdelay_resp_follow_up garbage) sys
    else sys
