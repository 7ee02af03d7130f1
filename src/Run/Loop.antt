-- ===== src/Run/Loop.antt =====
-- `singlePortLoop` and `sharedPortsLoop` of PTPWRd/protocol.c.
use ptp_noposix.Prelude.{ℕ, List, [], ◌∷◌, ◌==◌, ◌&&◌, ◌||◌, not, Bool, false, if◌then◌else◌}
use ptp_noposix.Constants.{PtpState, wr_s_only}
use ptp_noposix.Datatypes.{PtpClockDs, PtpPortDs, RunTimeOpts}
use ptp_noposix.Foreign.{
  clear_foreign_masters, global_best_foreign_masters_update, global_second_slaves_update,
  check_clock_class_validity,
}
use ptp_noposix.Servo.{wr_servo_reset}
use ptp_noposix.Port.{Answered, Sys}
use ptp_noposix.Port.Enter.{to_state}
use ptp_noposix.Issue.{on_port}
use ptp_noposix.Run.State.{Turn, same_state, do_state}
use ptp_noposix.Run.Start.{do_init}

-- What one round learns of the link and of the configuration of the port, and the answers of its turn.
pub record Round : Type 0 where
  pub is_port_up : Bool
  pub mode : ℕ
  pub went : Answered
  pub restarted : Answered
  pub initialized : Answered
  pub turn : Turn

unfoldable pub forget_masters : Sys → Sys
forget_masters sys =
    if sys.port.wr_config == wr_s_only then on_port clear_foreign_masters sys else sys

unfoldable pub restart : Round → RunTimeOpts → Sys → Sys
restart r opts sys =
    let cleared =
      forget_masters
        (do_init r.restarted r.mode opts (to_state r.went opts PtpState.initializing sys)) in
    record cleared { servo = record (cleared.servo) { do_restart = false } }

-- The mode is compared with the name of a configuration, whose value is that of WR_SLAVE.
unfoldable pub go_down : Sys → Sys
go_down sys =
    let forgotten = forget_masters sys in
    if forgotten.port.wr_mode == wr_s_only
    then record forgotten { servo = wr_servo_reset forgotten.servo }
    else forgotten

unfoldable pub follow_link : Round → RunTimeOpts → Sys → Sys
follow_link r opts sys =
    let was_up = sys.port.link_up in
    let seen = on_port (λ port. record port { link_up = r.is_port_up }) sys in
    if (r.is_port_up && not was_up) || sys.servo.do_restart
    then restart r opts seen
    else if not r.is_port_up && was_up
    then go_down seen
    else seen

unfoldable pub single_port_loop : Round → RunTimeOpts → Sys → Sys
single_port_loop r opts sys =
    let followed = follow_link r opts sys in
    if r.is_port_up
    then if not (same_state followed.port.port_state PtpState.initializing)
      then do_state r.turn opts followed
      else do_init r.initialized r.mode opts followed
    else followed

-- The clock and all its ports. `locked` is the answer of `extsrcLocked`.
unfoldable pub update_second_slaves : PtpClockDs → List PtpPortDs → PtpClockDs
update_second_slaves clock ports =
    if clock.global_state_decision_event
    then record ((global_second_slaves_update clock ports).1) {
      global_state_decision_event = false;
    }
    else clock

unfoldable pub shared_ports_loop :
    (tics : ℕ) → (locked : Bool) → PtpClockDs → List PtpPortDs → PtpClockDs × List PtpPortDs
shared_ports_loop tics locked clock ports =
    let (updated, (chosen, best)) =
      global_best_foreign_masters_update (update_second_slaves clock ports) ports in
    (
      check_clock_class_validity tics locked
          (record chosen { global_state_decision_event = updated }),
      best,
    )

-- The rounds of a port, each with the clock that the other ports and `sharedPortsLoop` left.
unfoldable pub run_rounds : RunTimeOpts → List (PtpClockDs × Round) → Sys → Sys
run_rounds opts [] sys = sys
run_rounds opts ((clock, r) ∷ rounds) sys =
    run_rounds opts rounds (single_port_loop r opts (record sys { clock = clock }))
