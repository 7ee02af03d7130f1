-- ===== src/Port/Running.antt =====
-- The timers of the link setup and of the port over the changes of state.
use ptp_noposix.Prelude.{ℕ, ◌≡◌, refl, ap, ◌∙◌, true, if_intro, ◌==◌, not, ◌||◌, length, arith}
use ptp_noposix.Prelude.Int.{pos, eqb_ℤ}
use ptp_noposix.Timer.{timer_stop}
use ptp_noposix.Constants.{
  PtpState, WrState, wr_timer_array_size, primary_slave, secondary_slave, wr_master, slave_present,
  lock, locked_id, calibrate, wr_mode_on_id,
}
use ptp_noposix.Datatypes.{Timers, PtpPortDs, RunTimeOpts}
use ptp_noposix.Msg.Signaling.{msg_pack_wr_signaling}
use ptp_noposix.Wr.{
  return_current_wr_main_state, is_idle, wr_timetout_manage, init_wr_data, timer_at,
}
use ptp_noposix.Wr.Laws.{OnlyRuns, wr_timetout_manage-OnlyRuns}
use ptp_noposix.Port.{
  Answered, Sys, leave_state, to_faulty, issue_wr_signaling_msg, make_call, enable_phase_tracking,
}
use ptp_noposix.Port.Link.{
  enter_wr_state, leave_wr_state, start_locking, start_calibration, mark_parent, to_wr_state,
}
use ptp_noposix.Port.Enter.{to_state, enter_state, enter_uncalibrated, enter_slave, is_wr_candidate}

abbrev pub IsQuiet : PtpPortDs → Type 0
IsQuiet port = port.timers.sync.interval ≡ pos 0

-- A change keeps the timers of the link setup, and does not start the sync timer.
abbrev Keeps : PtpPortDs → PtpPortDs → Type 0
Keeps p q = (q.wr_timers ≡ p.wr_timers) × (IsQuiet p → IsQuiet q)

leave_state-Keeps :
    (opts : RunTimeOpts) (state : PtpState) (port : PtpPortDs)
    → Keeps port (leave_state opts state port)
unfolding leave_state timer_stop
leave_state-Keeps opts PtpState.master port = (refl, λ q. refl)
leave_state-Keeps opts PtpState.passive port = (refl, λ q. q)
leave_state-Keeps opts PtpState.listening port = (refl, λ q. q)
leave_state-Keeps opts PtpState.slave port = (
  refl,
  if_intro (λ (x : Timers). IsQuiet port → x.sync.interval ≡ pos 0) opts.e2e_mode _ _ (λ _ q. q)
      (λ _ q. q),
)
leave_state-Keeps opts state port = (refl, λ q. q)

module _ (a : Answered) (opts : RunTimeOpts) where
  abbrev Kept : Sys → Sys → Type 0
  Kept sys x = Keeps sys.port x.port

  issue-Kept : (id : ℕ) (sys : Sys) → Kept sys (issue_wr_signaling_msg a opts id sys)
  unfolding issue_wr_signaling_msg to_faulty
  issue-Kept id sys =
      let packed = record (sys.port) {
        msg_obuf = (msg_pack_wr_signaling sys.clock sys.port id sys.port.msg_obuf).0;
      } in
      let kept : PtpPortDs → Type 0 = λ x. Keeps sys.port x in
      if_intro kept (eqb_ℤ a.sent (pos 0)) (to_faulty opts packed) packed
        (λ _.
          if_intro kept (is_idle sys.port.wr_port_state) _ _
            (λ _.
              leave_state-Keeps opts sys.port.port_state
                (record packed { message_activity = true }))
            (λ _. (refl, λ q. q)))
        (λ _. (refl, λ q. q))

  enter-Kept : (w : WrState) (sys : Sys) → Kept sys (enter_wr_state a opts w sys)
  unfolding enter_wr_state start_locking start_calibration mark_parent
  enter-Kept WrState.present sys = issue-Kept slave_present sys
  enter-Kept WrState.s_lock sys =
      if_intro (Kept sys) (sys.port.wr_slave_role == primary_slave) _ _ (λ _. (refl, λ q. q))
        (λ _.
          if_intro (Kept sys) (sys.port.wr_slave_role == secondary_slave) _ _ (λ _. (refl, λ q. q))
            (λ _. (refl, λ q. q)))
  enter-Kept WrState.m_lock sys = issue-Kept lock sys
  enter-Kept WrState.locked sys = issue-Kept locked_id sys
  enter-Kept WrState.calibration sys =
      let issued = issue_wr_signaling_msg a opts calibrate sys in
      if_intro (Kept sys) issued.port.calibrated _ _ (λ _. issue-Kept calibrate sys)
        (λ _.
          if_intro (Kept sys) a.pattern_started _ _ (λ _. issue-Kept calibrate sys)
            (λ _. issue-Kept calibrate sys))
  enter-Kept WrState.resp_calib_req sys =
      if_intro (Kept sys) (sys.port.other_node_cal_send_pattern == 1) _ _ (λ _. (refl, λ q. q))
        (λ _. (refl, λ q. q))
  enter-Kept WrState.wr_link_on sys =
      if_intro (Kept sys) (sys.port.wr_mode == wr_master)
        (issue_wr_signaling_msg a opts wr_mode_on_id tracked) tracked
        (λ _. issue-Kept wr_mode_on_id tracked) (λ _. (refl, λ q. q))
    where
      tracked : Sys
      tracked =
          make_call enable_phase_tracking
            (record sys { port = record (sys.port) { wr_mode_on = true } })
  enter-Kept w sys = (refl, λ q. q)

  leave_wr-Keeps : (sys : Sys) → Keeps sys.port (leave_wr_state a sys.port)
  unfolding leave_wr_state init_wr_data
  leave_wr-Keeps sys =
      if_intro (λ (x : PtpPortDs). Keeps sys.port x) (is_idle sys.port.wr_port_state) _ _
        (λ _. (refl, λ q. q)) (λ _. (refl, λ q. q))

  -- If, in a port with all the timers of the link setup, at most the timer of its main state runs,
  -- then after the link setup enters any state, whatever the hardware and the network answer, at
  -- most the timer of that state runs.
  pub to_wr_state-OnlyRuns :
      (w : WrState) (sys : Sys)
      → length sys.port.wr_timers ≡ wr_timer_array_size
      → OnlyRuns (return_current_wr_main_state sys.port) sys.port.wr_timers
      → OnlyRuns w ((to_wr_state a opts w sys).port.wr_timers)
  unfolding to_wr_state
  to_wr_state-OnlyRuns w sys len only =
      let left = record sys { port = leave_wr_state a sys.port } in
      let entered = enter_wr_state a opts w left in
      let same : entered.port.wr_timers ≡ sys.port.wr_timers =
        (enter-Kept w left).0 ∙ (leave_wr-Keeps sys).0 in
      wr_timetout_manage-OnlyRuns a.tics w (return_current_wr_main_state sys.port) entered.port
        (ap length same ∙ len) (λ j ne. ap (λ ts. (timer_at ts j).interval) same ∙ only j ne)

-- The sync timer of the port runs only while the port is a master.
pub data SyncAsMaster (port : PtpPortDs) : Type 0 where
  as_master : port.port_state ≡ PtpState.master → SyncAsMaster port
  not_syncing : IsQuiet port → SyncAsMaster port

pub active :
    (port : PtpPortDs) → SyncAsMaster port → SyncAsMaster (record port { message_activity = true })
active port (as_master m) = as_master m
active port (not_syncing q) = not_syncing q

pub leave-IsQuiet :
    (opts : RunTimeOpts) (state : PtpState) (port : PtpPortDs)
    → port.port_state ≡ state
    → SyncAsMaster port
    → IsQuiet (leave_state opts state port)
unfolding leave_state timer_stop
leave-IsQuiet opts PtpState.master port e h = refl
leave-IsQuiet opts state port e (not_syncing q) = (leave_state-Keeps opts state port).1 q
leave-IsQuiet opts state port e (as_master m) = absurd (ground (arith, e, m))

module _ (a : Answered) (opts : RunTimeOpts) where
  to_wr_state-IsQuiet :
      (w : WrState) (sys : Sys) → IsQuiet sys.port → IsQuiet ((to_wr_state a opts w sys).port)
  unfolding to_wr_state wr_timetout_manage
  to_wr_state-IsQuiet w sys q =
      (enter-Kept a opts w (record sys { port = leave_wr_state a sys.port })).1
        ((leave_wr-Keeps a opts sys).1 q)

  abbrev IsSynced : Sys → Type 0
  IsSynced x = SyncAsMaster x.port

  enter-SyncAsMaster :
      (state : PtpState) (sys : Sys) → IsQuiet sys.port → IsSynced (enter_state a opts state sys)
  unfolding enter_state enter_slave enter_uncalibrated
  enter-SyncAsMaster PtpState.master sys q = as_master refl
  enter-SyncAsMaster PtpState.listening sys q = not_syncing q
  enter-SyncAsMaster PtpState.passive sys q = not_syncing q
  enter-SyncAsMaster PtpState.pre_master sys q = not_syncing q
  enter-SyncAsMaster PtpState.slave sys q =
      not_syncing
        (if_intro (λ (x : Timers). x.sync.interval ≡ pos 0) opts.e2e_mode _ _ (λ _. q) (λ _. q))
  enter-SyncAsMaster PtpState.uncalibrated sys q =
      if_intro IsSynced (is_wr_candidate sys.port) _ _
        (λ _.
          if_intro IsSynced (not sys.port.parent_wr_mode_on || not sys.port.wr_mode_on) _ _
            (λ _. not_syncing (to_wr_state-IsQuiet WrState.present sys q)) (λ _. not_syncing q))
        (λ _. not_syncing q)
  enter-SyncAsMaster state sys q = not_syncing q

  -- If the sync timer of a port runs only if the port is a master, then this holds after the port
  -- enters any state, the start of the link setup on entering the uncalibrated state included,
  -- whatever the hardware and the network answer.
  pub to_state-SyncAsMaster :
      (state : PtpState) (sys : Sys) → IsSynced sys → IsSynced (to_state a opts state sys)
  unfolding to_state
  to_state-SyncAsMaster state sys h =
      if_intro IsSynced (is_idle sys.port.wr_port_state) _ _
        (λ _. enter-SyncAsMaster state _ (
          leave-IsQuiet opts sys.port.port_state (record (sys.port) { message_activity = true })
            refl (active sys.port h)))
        (λ _. h)
