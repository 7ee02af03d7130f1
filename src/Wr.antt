-- ===== src/Wr.antt =====
-- The timers and the data of the link setup in PTPWRd/wr_protocol.c: returnCurrentWRMainState,
-- wrTimetoutManage and initWrData. The answer of ptpd_netif_read_calibration_data is an argument.
pub mod Laws
use ptp_noposix.Prelude.{
  ℕ, ◌+◌, ◌*◌, ◌/◌, ◌%◌, ◌^◌, List, get_or, set, replicate, ◌==◌, u8, u32, ◌<<<◌, ◌>>>◌, Bool, true,
  false, not, if◌then◌else◌,
}
use ptp_noposix.Prelude.Int.{ℤ, pos, i32}
use ptp_noposix.Timer.{IntervalTimer, timer_start, timer_stop}
use ptp_noposix.Constants.{WrState, wrs_index, wr_timer_array_size, non_wr, non_slave}
use ptp_noposix.Datatypes.{FixedDelta, PtpPortDs}
use ptp_noposix.Datatypes.Empty.{empty_interval_timer, empty_fixed_delta}

-- The main state that a substate belongs to.
unfoldable pub main_state : WrState → WrState
main_state WrState.s_lock_1 = WrState.s_lock
main_state WrState.s_lock_2 = WrState.s_lock
main_state WrState.calibration_1 = WrState.calibration
main_state WrState.calibration_2 = WrState.calibration
main_state WrState.calibration_3 = WrState.calibration
main_state WrState.calibration_4 = WrState.calibration
main_state WrState.calibration_5 = WrState.calibration
main_state WrState.calibration_6 = WrState.calibration
main_state WrState.calibration_7 = WrState.calibration
main_state WrState.calibration_8 = WrState.calibration
main_state WrState.resp_calib_req_1 = WrState.resp_calib_req
main_state WrState.resp_calib_req_2 = WrState.resp_calib_req
main_state WrState.resp_calib_req_3 = WrState.resp_calib_req
main_state state = state

abbrev pub return_current_wr_main_state : PtpPortDs → WrState
return_current_wr_main_state port = main_state port.wr_port_state

abbrev pub is_idle : WrState → Bool
is_idle WrState.idle = true
is_idle _ = false

abbrev pub timer_at : List IntervalTimer → ℕ → IntervalTimer
timer_at timers i = get_or timers i empty_interval_timer

-- The count of repetitions, the timer of the state that is left and that of the state that is
-- entered. `tics` is the time at which the timer starts.
unfoldable pub wr_timetout_manage :
    (tics : ℕ) (entering_state exiting_state : WrState) → PtpPortDs → PtpPortDs
wr_timetout_manage tics entering_state exiting_state port =
    let entering = wrs_index entering_state in
    let exiting = wrs_index exiting_state in
    let stopped =
      if is_idle exiting_state
      then port.wr_timers
      else set port.wr_timers exiting (timer_stop (timer_at port.wr_timers exiting)) in
    record port {
      current_wr_state_cnt = if entering == exiting then u8 (port.current_wr_state_cnt + 1) else 0;
      wr_timers =
          if is_idle entering_state
          then stopped
          else set stopped entering (
              timer_start tics (timer_at stopped entering)
                (get_or port.wr_timeouts entering (pos 0)));
    }

-- A fixed delay in picoseconds, as the two words of scaledPicoseconds: 16 fractional bits.
abbrev pub scaled : ℕ → FixedDelta
scaled d = record { lsb = u32 (d <<< 16); msb = u32 (d >>> 16) }

-- The timeouts: those of the states that wait for the hardware or for the other node are fixed.
unfoldable pub initial_timeouts : ℤ → List ℤ
initial_timeouts wr_state_timeout =
    let all = replicate wr_timer_array_size wr_state_timeout in
    let with_present = set all (wrs_index WrState.present) (pos 1000) in
    let with_s_lock = set with_present (wrs_index WrState.s_lock) (pos 10000) in
    set with_s_lock (wrs_index WrState.m_lock) (pos 10000)

-- `is_init` tells INIT from RE_INIT; `d_tx` and `d_rx` are the delays that
-- the variables hold after the hardware was asked for them.
unfoldable pub init_wr_data : (is_init : Bool) (d_tx d_rx : ℕ) → PtpPortDs → PtpPortDs
init_wr_data is_init d_tx d_rx port = record port {
  wr_mode_on = false;
  wr_port_state = WrState.idle;
  calibrated = not port.phy_calibration_required;
  delta_tx = if port.phy_calibration_required then empty_fixed_delta else scaled d_tx;
  delta_rx = if port.phy_calibration_required then empty_fixed_delta else scaled d_rx;
  parent_wr_config = non_wr;
  parent_wr_mode_on = false;
  parent_calibrated = false;
  other_node_cal_period = 0;
  other_node_cal_retry = 0;
  other_node_cal_send_pattern = 0;
  other_node_delta_tx = empty_fixed_delta;
  other_node_delta_rx = empty_fixed_delta;
  wr_timeouts = initial_timeouts (i32 (pos port.wr_state_timeout));
  wr_mode = if is_init then non_wr else port.wr_mode;
  wr_slave_role = if is_init then non_slave else port.wr_slave_role;
}
