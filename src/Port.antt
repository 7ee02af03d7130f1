-- ===== src/Port.antt =====
-- The state changes of a port: what `toState` of PTPWRd/protocol.c and `toWRState` of
-- PTPWRd/wr_protocol.c share. One handler reads the time and the answers of the hardware and of the
-- network from `Answered`, in which each call has one answer; the calls it makes are listed, the first
-- call first. `toState(UNCALIBRATED)` calls `toWRState`, which sends a message, and a failure to send
-- calls `toState(FAULTY)`: that last one is `to_faulty`, and the chain ends there.
pub mod Link
pub mod Enter
pub mod Timeout
pub mod Retry
pub mod GiveUp
pub mod Running
pub mod Attempt
pub mod Progress
pub mod Lock
pub mod Synced
use ptp_noposix.Prelude.{ℕ, ◌*◌, ◌++◌, List, [], ◌∷◌, Bool, true, false, Option, if◌then◌else◌}
use ptp_noposix.Prelude.Int.{ℤ, pos, i32, eqb_ℤ}
use ptp_noposix.Timer.{IntervalTimer, timer_start, timer_stop, pow_2}
use ptp_noposix.Constants.{PtpState, WrState, non_wr}
use ptp_noposix.Datatypes.{Buf, WrTimestamp, Timers, PtpClockDs, PtpPortDs, RunTimeOpts}
use ptp_noposix.Msg.Signaling.{msg_pack_wr_signaling}
use ptp_noposix.Servo.{Servo}
use ptp_noposix.Wr.{is_idle}

pub data LinkCall : Type 0 where
  send_general : Buf → (length : ℕ) → LinkCall
  send_event : Buf → (length : ℕ) → LinkCall
  send_peer_event : Buf → (length : ℕ) → LinkCall
  send_peer_general : Buf → (length : ℕ) → LinkCall
  locking_enable : (wr_mode priority : ℕ) → LinkCall
  calibration_pattern_enable : (period : ℕ) → LinkCall
  calibrating_enable_tx : LinkCall
  calibrating_poll_tx : LinkCall
  calibrating_disable_tx : LinkCall
  calibration_pattern_disable : LinkCall
  calibrating_enable_rx : LinkCall
  calibrating_poll_rx : LinkCall
  calibrating_disable_rx : LinkCall
  locking_poll : (wr_mode priority : ℕ) → LinkCall
  locking_disable : (wr_mode priority : ℕ) → LinkCall
  enable_phase_tracking : LinkCall

pub record Answered : Type 0 where
  pub tics : ℕ  -- ptpd_netif_get_msec_tics
  pub sent : ℤ  -- ptpd_netif_sendto
  pub stamp : WrTimestamp  -- what it left in the time stamp of an event message
  pub locking_started : Bool
  pub pattern_started : Bool
  pub calibrating_started : Bool
  pub d_tx : ℕ  -- ptpd_netif_read_calibration_data, for initWrData
  pub d_rx : ℕ
  pub servo_calibration : Option (ℤ × ℕ)  -- the same, for wr_servo_init

-- A port with what its handlers read and write beside it.
pub record Sys : Type 0 where
  pub clock : PtpClockDs
  pub port : PtpPortDs
  pub servo : Servo
  pub calls : List LinkCall

abbrev pub make_call : LinkCall → Sys → Sys
make_call c sys = record sys { calls = sys.calls ++ c ∷ [] }

abbrev pub with_timers : (Timers → Timers) → PtpPortDs → PtpPortDs
with_timers f port = record port { timers = f port.timers }

-- The time of `1000 * pow_2(log)`, and that of the announce receipt timeout, in milliseconds.
abbrev pub interval_of : ℕ → ℤ
interval_of log = i32 (pos (1000 * pow_2 log))

abbrev pub receipt_interval : PtpPortDs → ℤ
receipt_interval port =
    i32 (pos (port.announce_receipt_timeout * 1000 * pow_2 port.log_announce_interval))

-- The first switch of `toState`, by the state that is left.
unfoldable pub leave_state : RunTimeOpts → PtpState → PtpPortDs → PtpPortDs
leave_state opts PtpState.master port =
    with_timers
      (λ t. record t {
        sync = timer_stop t.sync;
        announce_interval = timer_stop t.announce_interval;
        pdelay_req = timer_stop t.pdelay_req;
      })
      port
leave_state opts PtpState.slave port =
    let receipt : Timers → Timers =
      λ t. record t { announce_receipt = timer_stop t.announce_receipt } in
    let delay : Timers → Timers = λ t.
      if opts.e2e_mode
      then record t { delay_req = timer_stop t.delay_req }
      else record t { pdelay_req = timer_stop t.pdelay_req } in
    record (with_timers (λ t. delay (receipt t)) port) { wr_mode = non_wr; wr_mode_on = false }
leave_state opts PtpState.passive port =
    with_timers
      (λ t. record t {
        pdelay_req = timer_stop t.pdelay_req;
        announce_receipt = timer_stop t.announce_receipt;
      })
      port
leave_state opts PtpState.listening port =
    with_timers (λ t. record t { announce_receipt = timer_stop t.announce_receipt }) port
leave_state opts state port = port

-- `toState(PTP_FAULTY)`: the link setup, when it runs, keeps the state.
unfoldable pub to_faulty : RunTimeOpts → PtpPortDs → PtpPortDs
to_faulty opts port =
    if is_idle port.wr_port_state
    then record (leave_state opts port.port_state (record port { message_activity = true })) {
      port_state = PtpState.faulty;
    }
    else port

-- Only the answer 0 counts as a failure.
unfoldable pub issue_wr_signaling_msg : Answered → RunTimeOpts → ℕ → Sys → Sys
issue_wr_signaling_msg a opts wr_message_id sys =
    let (obuf, len) = msg_pack_wr_signaling sys.clock sys.port wr_message_id sys.port.msg_obuf in
    let packed = record (sys.port) { msg_obuf = obuf } in
    make_call (send_general obuf len)
      (record sys { port = if eqb_ℤ a.sent (pos 0) then to_faulty opts packed else packed })
