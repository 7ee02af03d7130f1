-- ===== src/Port/Enter.antt =====
-- `toState` of PTPWRd/protocol.c. The statistics that it may print are left out.
use ptp_noposix.Prelude.{Bool, true, false, not, ◌&&◌, ◌||◌, ◌==◌, if◌then◌else◌}
use ptp_noposix.Prelude.Int.{pos}
use ptp_noposix.Time.{TimeInternal}
use ptp_noposix.Timer.{timer_start}
use ptp_noposix.Constants.{PtpState, WrState, non_wr, wr_slave, wr_s_only, wr_m_and_s, wr_m_only}
use ptp_noposix.Datatypes.{Timers, PtpPortDs, RunTimeOpts}
use ptp_noposix.Servo.{wr_servo_init}
use ptp_noposix.Wr.{is_idle}
use ptp_noposix.Port.{Answered, Sys, with_timers, interval_of, receipt_interval, leave_state}
use ptp_noposix.Port.Link.{to_wr_state}

abbrev pub port_state_to : PtpState → Sys → Sys
port_state_to state sys = record sys { port = record (sys.port) { port_state = state } }

abbrev pub cleared : TimeInternal → TimeInternal
cleared t = record t { seconds = pos 0; nanoseconds = pos 0 }

-- Both ends of the link can do White Rabbit, this one as the slave.
unfoldable pub is_wr_candidate : PtpPortDs → Bool
is_wr_candidate port =
    port.wr_mode == wr_slave
    && (port.wr_config == wr_s_only || port.wr_config == wr_m_and_s)
    && (port.parent_wr_config == wr_m_only || port.parent_wr_config == wr_m_and_s)

unfoldable pub enter_uncalibrated : Answered → RunTimeOpts → Sys → Sys
enter_uncalibrated a opts sys =
    if is_wr_candidate sys.port
    then if not sys.port.parent_wr_mode_on || not sys.port.wr_mode_on
      then port_state_to PtpState.uncalibrated (to_wr_state a opts WrState.present sys)
      else port_state_to PtpState.slave sys
    else port_state_to PtpState.slave (record sys { port = record (sys.port) { wr_mode = non_wr } })

unfoldable pub enter_slave : Answered → RunTimeOpts → Sys → Sys
enter_slave a opts sys =
    let port = record (sys.port) {
      waiting_for_follow = false;
      pdelay_times = record {
        req_send_time = cleared sys.port.pdelay_times.req_send_time;
        req_receive_time = cleared sys.port.pdelay_times.req_receive_time;
        resp_send_time = cleared sys.port.pdelay_times.resp_send_time;
        resp_receive_time = cleared sys.port.pdelay_times.resp_receive_time;
      };
    } in
    let receipt : Timers → Timers = λ t. record t {
      announce_receipt = timer_start a.tics t.announce_receipt (receipt_interval port);
    } in
    let delay : Timers → Timers = λ t.
      if opts.e2e_mode
      then record t {
        delay_req = timer_start a.tics t.delay_req (interval_of port.log_min_delay_req_interval);
      }
      else record t {
        pdelay_req = timer_start a.tics t.pdelay_req (interval_of port.log_min_pdelay_req_interval);
      } in
    port_state_to PtpState.slave (record sys {
      servo = (wr_servo_init a.servo_calibration sys.port sys.servo).0;
      port = with_timers (λ t. delay (receipt t)) port;
    })

-- The second switch, by the state that is entered.
unfoldable pub enter_state : Answered → RunTimeOpts → PtpState → Sys → Sys
enter_state a opts PtpState.listening sys = port_state_to PtpState.listening (record sys {
  port =
      with_timers
        (λ t. record t {
          announce_receipt = timer_start a.tics t.announce_receipt (receipt_interval sys.port);
        })
        sys.port;
})
enter_state a opts PtpState.master sys = port_state_to PtpState.master (record sys {
  port =
      with_timers
        (λ t. record t {
          sync = timer_start a.tics t.sync (interval_of sys.port.log_sync_interval);
          announce_interval =
              timer_start a.tics t.announce_interval (interval_of sys.port.log_announce_interval);
          pdelay_req =
              timer_start a.tics t.pdelay_req (interval_of sys.port.log_min_pdelay_req_interval);
        })
        sys.port;
})
enter_state a opts PtpState.passive sys = port_state_to PtpState.passive (record sys {
  port =
      with_timers
        (λ t. record t {
          pdelay_req =
              timer_start a.tics t.pdelay_req (interval_of sys.port.log_min_pdelay_req_interval);
          announce_interval = timer_start a.tics t.announce_interval (receipt_interval sys.port);
        })
        sys.port;
})
enter_state a opts PtpState.uncalibrated sys = enter_uncalibrated a opts sys
enter_state a opts PtpState.slave sys = enter_slave a opts sys
enter_state a opts PtpState.pre_master sys = sys
enter_state a opts state sys = port_state_to state sys

unfoldable pub to_state : Answered → RunTimeOpts → PtpState → Sys → Sys
to_state a opts state sys =
    if is_idle sys.port.wr_port_state
    then enter_state a opts state (record sys {
      port = leave_state opts sys.port.port_state (record (sys.port) { message_activity = true });
    })
    else sys
