-- ===== src/Port/Timeout.antt =====
-- `wrTimerExpired` of PTPWRd/wr_protocol.c.
use ptp_noposix.Prelude.{ℕ, ltb, ◌==◌, set, Bool, true, false, if◌then◌else◌}
use ptp_noposix.Timer.{timer_expired}
use ptp_noposix.Constants.{PtpState, WrState, wrs_index, wr_master}
use ptp_noposix.Datatypes.{PtpPortDs, RunTimeOpts}
use ptp_noposix.Wr.{is_idle, timer_at, init_wr_data}
use ptp_noposix.Port.{Answered, Sys}
use ptp_noposix.Port.Link.{to_wr_state}
use ptp_noposix.Port.Enter.{to_state}

-- How often the state is entered again.
unfoldable pub retries : WrState → PtpPortDs → ℕ
retries WrState.calibration port =
    if ltb 0 port.cal_retry then port.cal_retry else port.wr_state_retry
retries WrState.resp_calib_req port =
    if ltb 0 port.other_node_cal_retry then port.other_node_cal_retry else port.wr_state_retry
retries state port = port.wr_state_retry

-- Where the port goes when the link setup is given up.
unfoldable pub fallback : RunTimeOpts → (wr_mode : ℕ) → PtpState
fallback opts wr_mode =
    if opts.disable_fallback_if_wr_fails
    then PtpState.disabled
    else if wr_mode == wr_master
    then PtpState.master
    else PtpState.slave

unfoldable pub give_up : Answered → RunTimeOpts → (wr_mode : ℕ) → Sys → Sys
give_up a opts wr_mode sys =
    let off = record sys { port = record (sys.port) { wr_mode_on = false } } in
    let fallen = to_state a opts (fallback opts wr_mode) (to_wr_state a opts WrState.idle off) in
    record fallen { port = init_wr_data true a.d_tx a.d_rx fallen.port }

-- The answer of the timer, and the timers that it leaves.
unfoldable pub check_timer : Answered → WrState → Sys → Sys × Bool
check_timer a state sys =
    let i = wrs_index state in
    let (timer, expired) = timer_expired a.tics (timer_at sys.port.wr_timers i) in
    (
      record sys { port = record (sys.port) { wr_timers = set sys.port.wr_timers i timer } },
      expired,
    )

unfoldable pub wr_timer_expired : Answered → RunTimeOpts → (wr_mode : ℕ) → WrState → Sys → Sys
wr_timer_expired a opts wr_mode current_state sys =
    let (checked, expired) = check_timer a current_state sys in
    if is_idle current_state
    then sys
    else if expired
    then if ltb checked.port.current_wr_state_cnt (retries current_state checked.port)
      then to_wr_state a opts current_state checked
      else give_up a opts wr_mode checked
    else checked
