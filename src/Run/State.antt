-- ===== src/Run/State.antt =====
-- `doState` of PTPWRd/protocol.c.
use ptp_noposix.Prelude.{◌==◌, ◌&&◌, ◌||◌, not, Bool, true, false, if◌then◌else◌}
use ptp_noposix.Prelude.Int.{pos, eqb_ℤ}
use ptp_noposix.Timer.{IntervalTimer, timer_expired}
use ptp_noposix.Constants.{PtpState, pts_index, non_wr, wr_m_only, wr_s_only, wr_master, wr_slave}
use ptp_noposix.Datatypes.{ForeignMasterRecord, Timers, PtpPortDs, RunTimeOpts}
use ptp_noposix.Wr.{is_idle}
use ptp_noposix.Bmc.Update.{m1}
use ptp_noposix.Bmc.Decision.{bmc}
use ptp_noposix.Bmc.Best.{record_at}
use ptp_noposix.Port.{Answered, Sys, with_timers}
use ptp_noposix.Port.Enter.{to_state}
use ptp_noposix.Issue.{
  on_port, issue_announce, issue_sync, issue_followup, issue_delay_req, issue_pdelay_req,
}
use ptp_noposix.Handle.{Received, handle}
use ptp_noposix.Run.Link.{LinkTurn, use_message, do_wr_state}

-- The answers to the calls of one turn: those of the decision, of the message, of the link setup, of
-- each issuer with the time at which its timer was asked, and of the last change of state. The record
-- that `bestForeign` of the clock points to may be in the table of another port.
pub record Turn : Type 0 where
  pub best_foreign : ForeignMasterRecord
  pub decided : Answered
  pub received : Received
  pub link : LinkTurn
  pub entered : Answered
  pub request : Answered
  pub sync : Answered
  pub follow_up : Answered
  pub announce : Answered

abbrev pub same_state : PtpState → PtpState → Bool
same_state a b = pts_index a == pts_index b

-- A slave whose link left White Rabbit mode at either end.
unfoldable pub synchronization_fault : PtpPortDs → Bool
synchronization_fault port =
    port.link_up
    && (same_state port.port_state PtpState.slave
        && (port.wr_mode == wr_slave && (not port.parent_wr_mode_on || not port.wr_mode_on)))

-- The states from which a slave is made by way of the uncalibrated state.
unfoldable pub comes_uncalibrated : PtpState → Bool
comes_uncalibrated PtpState.listening = true
comes_uncalibrated PtpState.pre_master = true
comes_uncalibrated PtpState.master = true
comes_uncalibrated PtpState.passive = true
comes_uncalibrated PtpState.uncalibrated = true
comes_uncalibrated _ = false

abbrev pub as_candidate : PtpPortDs → PtpPortDs
as_candidate port = record port { wr_mode = wr_slave; wr_mode_on = false }

unfoldable pub follow_decision : Answered → RunTimeOpts → PtpState → Sys → Sys
follow_decision a opts state sys =
    if not (same_state state sys.port.port_state)
    then if same_state state PtpState.slave && comes_uncalibrated sys.port.port_state
      then to_state a opts PtpState.uncalibrated (on_port as_candidate sys)
      else to_state a opts state sys
    else if synchronization_fault sys.port
    then to_state a opts PtpState.uncalibrated sys
    else sys

unfoldable pub is_deciding : PtpState → Bool
is_deciding PtpState.listening = true
is_deciding PtpState.passive = true
is_deciding PtpState.slave = true
is_deciding PtpState.master = true
is_deciding _ = false

-- The state decision event, which is global to the clock.
unfoldable pub decide : Turn → RunTimeOpts → Sys → Sys
decide t opts sys =
    let noted = record (sys.port) { record_update = false } in
    let erbest = record_at sys.port.foreign sys.port.foreign_record_best in
    let (state, clock, port) = bmc erbest t.best_foreign sys.clock noted in
    if is_deciding sys.port.port_state
      && (sys.clock.global_state_decision_event && is_idle sys.port.wr_port_state)
    then follow_decision t.decided opts state (record sys { clock = clock; port = port })
    else sys

-- `if (timerExpired(...)) act`.
unfoldable pub when_expired :
    Answered
    → (get : Timers → IntervalTimer) → (put : IntervalTimer → Timers → Timers) → (act : Sys → Sys)
    → Sys
    → Sys
when_expired a get put act sys =
    let (timer, expired) = timer_expired a.tics (get sys.port.timers) in
    let polled = on_port (with_timers (put timer)) sys in if expired then act polled else polled

abbrev pub with_m1 : Sys → Sys
with_m1 sys = let (clock, port) = m1 sys.clock sys.port in record sys { clock = clock; port = port }

-- The port, or the clock, is a slave only.
unfoldable pub is_slave_only : Sys → Bool
is_slave_only sys = sys.port.wr_config == wr_s_only || sys.clock.clock_quality.clock_class == 255

-- The masters and the White Rabbit mode are forgotten.
abbrev pub abandoned : Sys → Sys
abandoned sys =
    on_port
      (λ port. record port {
        number_foreign_records = 0;
        foreign_record_i = 0;
        wr_mode = non_wr;
        wr_mode_on = false;
      })
      sys

-- The announce receipt timeout.
unfoldable pub lose_master : Answered → RunTimeOpts → Sys → Sys
lose_master a opts sys =
    let alone = abandoned sys in
    if not (is_slave_only sys)
    then to_state a opts PtpState.master (with_m1 alone)
    else if not (same_state sys.port.port_state PtpState.listening)
    then to_state a opts PtpState.listening alone
    else alone

module _ (t : Turn) (opts : RunTimeOpts) where
  unfoldable pub poll_pdelay_req : Sys → Sys
  poll_pdelay_req =
      when_expired t.request (λ x. x.pdelay_req) (λ i x. record x { pdelay_req = i })
        (issue_pdelay_req t.request opts)

  unfoldable pub poll_delay_req : Sys → Sys
  poll_delay_req =
      when_expired t.request (λ x. x.delay_req) (λ i x. record x { delay_req = i })
        (issue_delay_req t.request opts)

  unfoldable pub poll_receipt : Sys → Sys
  poll_receipt =
      when_expired t.entered (λ x. x.announce_receipt) (λ i x. record x { announce_receipt = i })
        (lose_master t.entered opts)

  -- PTP_LISTENING, PTP_PASSIVE and PTP_SLAVE.
  unfoldable pub listen : Sys → Sys
  listen sys =
      let polled = poll_receipt (handle t.received opts sys) in
      if opts.e2e_mode then poll_delay_req polled else poll_pdelay_req polled

  unfoldable pub send_sync : Sys → Sys
  send_sync sys =
      let sent = issue_sync t.sync opts sys in
      if eqb_ℤ sent.port.synch_tx_ts.correct (pos 0)
      then sent
      else issue_followup t.follow_up opts sent

  unfoldable pub poll_sync : Sys → Sys
  poll_sync = when_expired t.sync (λ x. x.sync) (λ i x. record x { sync = i }) send_sync

  unfoldable pub poll_announce : Sys → Sys
  poll_announce =
      when_expired t.announce (λ x. x.announce_interval) (λ i x. record x { announce_interval = i })
        (issue_announce t.announce opts)

  -- PTP_MASTER outside of the link setup.
  unfoldable pub serve : Sys → Sys
  serve sys =
      let polled = poll_announce (poll_sync (handle t.received opts sys)) in
      let asked = if opts.e2e_mode then polled else poll_pdelay_req polled in
      if is_slave_only asked then to_state t.entered opts PtpState.listening asked else asked

  unfoldable pub set_up_link : Sys → Sys
  set_up_link sys = use_message (do_wr_state t.link opts sys)

  -- The second switch, on the state that the decision left.
  unfoldable pub act_on : PtpState → Sys → Sys
  act_on PtpState.faulty sys = to_state t.entered opts PtpState.initializing sys
  act_on PtpState.uncalibrated sys =
      if sys.port.wr_mode == wr_slave
      then set_up_link sys
      else use_message (to_state t.entered opts PtpState.slave sys)
  act_on PtpState.listening sys =
      if sys.port.wr_config == wr_m_only
      then to_state t.entered opts PtpState.master (with_m1 sys)
      else listen sys
  act_on PtpState.passive sys = listen sys
  act_on PtpState.slave sys = listen sys
  act_on PtpState.master sys =
      if sys.port.wr_mode == wr_master && not (is_idle sys.port.wr_port_state)
      then set_up_link sys
      else serve sys
  act_on PtpState.disabled sys = handle t.received opts sys
  act_on state sys = sys

  unfoldable pub do_state : Sys → Sys
  do_state sys = let decided = decide t opts sys in act_on decided.port.port_state decided
