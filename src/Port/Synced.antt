-- ===== src/Port/Synced.antt =====
-- The sync timer and the state of a port over the changes of its link setup.
use ptp_noposix.Prelude.{ℕ, ◌≡◌, refl, ap, ◌∙◌, Bool, true, if_intro, ◌==◌, ltb, arith}
use ptp_noposix.Prelude.Int.{eqb_ℤ, pos}
use ptp_noposix.Constants.{
  WrState, wrs_index, primary_slave, secondary_slave, wr_master, slave_present, lock, locked_id,
  calibrate, calibrated_id, wr_mode_on_id,
}
use ptp_noposix.Datatypes.{PtpPortDs, RunTimeOpts}
use ptp_noposix.Timer.{IntervalTimer, timer_expired}
use ptp_noposix.Wr.{is_idle, wr_timetout_manage, init_wr_data, timer_at}
use ptp_noposix.Msg.Signaling.{msg_pack_wr_signaling}
use ptp_noposix.Port.{
  LinkCall, Answered, Sys, to_faulty, issue_wr_signaling_msg, make_call, enable_phase_tracking,
}
use ptp_noposix.Port.Link.{
  enter_wr_state, leave_wr_state, start_locking, start_calibration, mark_parent, to_wr_state,
}
use ptp_noposix.Port.Timeout.{check_timer, give_up, fallback, wr_timer_expired, retries}
use ptp_noposix.Port.Attempt.{
  Calibrates, Locks, attempt, finish_calibration, calibrate_from_0, calibrate_from_1,
  calibrate_from_2, calibrate_from_3, calibrate_from_4, calibrate_from_5, calibrate_from_6,
  calibrate_from_7, do_calibration, lock_from_0, lock_from_1, lock_from_2, lock_with, do_lock,
}
use ptp_noposix.Port.Running.{
  SyncAsMaster, as_master, not_syncing, leave-IsQuiet, active, to_state-SyncAsMaster,
}

pub SyncAsMaster-same :
    {p q : PtpPortDs}
    → q.port_state ≡ p.port_state
    → q.timers.sync ≡ p.timers.sync
    → SyncAsMaster p
    → SyncAsMaster q
SyncAsMaster-same s t (as_master m) = as_master (s ∙ m)
SyncAsMaster-same s t (not_syncing z) = not_syncing (ap (λ (i : IntervalTimer). i.interval) t ∙ z)

pub SyncAsMaster-interval :
    {p q : PtpPortDs}
    → q.port_state ≡ p.port_state
    → q.timers.sync.interval ≡ p.timers.sync.interval
    → SyncAsMaster p
    → SyncAsMaster q
SyncAsMaster-interval s t (as_master m) = as_master (s ∙ m)
SyncAsMaster-interval s t (not_syncing z) = not_syncing (t ∙ z)

-- A poll does not change the interval.
pub timer_expired-interval :
    (tics : ℕ) (i : IntervalTimer) → (timer_expired tics i).0.interval ≡ i.interval
unfolding timer_expired
timer_expired-interval tics i = ground arith

pub to_faulty-SyncAsMaster :
    (opts : RunTimeOpts) (port : PtpPortDs) → SyncAsMaster port → SyncAsMaster (to_faulty opts port)
unfolding to_faulty
to_faulty-SyncAsMaster opts port h =
    if_intro SyncAsMaster (is_idle port.wr_port_state) _ _
      (λ _. not_syncing (
        leave-IsQuiet opts port.port_state (record port { message_activity = true }) refl
          (active port h)))
      (λ _. h)

-- A system whose port is such.
abbrev pub IsSynced : Sys → Type 0
IsSynced x = SyncAsMaster x.port

-- What a change of a system has to keep.
abbrev pub Syncs : (Sys → Sys) → Type 0
Syncs f = (sys : Sys) → IsSynced sys → IsSynced (f sys)

module _ (a : Answered) (opts : RunTimeOpts) where
  issue_wr-Syncs : (id : ℕ) → Syncs (issue_wr_signaling_msg a opts id)
  unfolding issue_wr_signaling_msg
  issue_wr-Syncs id sys h =
      let packed = record (sys.port) {
        msg_obuf = (msg_pack_wr_signaling sys.clock sys.port id sys.port.msg_obuf).0;
      } in
      if_intro SyncAsMaster (eqb_ℤ a.sent (pos 0)) (to_faulty opts packed) packed
        (λ _. to_faulty-SyncAsMaster opts packed (SyncAsMaster-same refl refl h))
        (λ _. SyncAsMaster-same refl refl h)

  enter_wr-Syncs : (w : WrState) → Syncs (enter_wr_state a opts w)
  unfolding enter_wr_state start_locking start_calibration mark_parent
  enter_wr-Syncs WrState.present sys h =
      SyncAsMaster-same refl refl (issue_wr-Syncs slave_present sys h)
  enter_wr-Syncs WrState.s_lock sys h =
      if_intro IsSynced (sys.port.wr_slave_role == primary_slave) _ _
        (λ _. SyncAsMaster-same refl refl h)
        (λ _.
          if_intro IsSynced (sys.port.wr_slave_role == secondary_slave) _ _
            (λ _. SyncAsMaster-same refl refl h) (λ _. h))
  enter_wr-Syncs WrState.m_lock sys h = SyncAsMaster-same refl refl (issue_wr-Syncs lock sys h)
  enter_wr-Syncs WrState.locked sys h = SyncAsMaster-same refl refl (issue_wr-Syncs locked_id sys h)
  enter_wr-Syncs WrState.calibration sys h =
      let issued = issue_wr_signaling_msg a opts calibrate sys in
      let kept = issue_wr-Syncs calibrate sys h in
      if_intro IsSynced issued.port.calibrated _ _ (λ _. SyncAsMaster-same refl refl kept)
        (λ _.
          if_intro IsSynced a.pattern_started _ _ (λ _. SyncAsMaster-same refl refl kept)
            (λ _. SyncAsMaster-same refl refl kept))
  enter_wr-Syncs WrState.resp_calib_req sys h =
      if_intro IsSynced (sys.port.other_node_cal_send_pattern == 1) _ _
        (λ _. SyncAsMaster-same refl refl h) (λ _. SyncAsMaster-same refl refl h)
  enter_wr-Syncs WrState.wr_link_on sys h =
      let on : IsSynced tracked = SyncAsMaster-same refl refl h in
      SyncAsMaster-same refl refl (
        if_intro IsSynced (sys.port.wr_mode == wr_master)
          (issue_wr_signaling_msg a opts wr_mode_on_id tracked) tracked
          (λ _. issue_wr-Syncs wr_mode_on_id tracked on) (λ _. on))
    where
      tracked : Sys
      tracked =
          make_call enable_phase_tracking
            (record sys { port = record (sys.port) { wr_mode_on = true } })
  enter_wr-Syncs w sys h = SyncAsMaster-same refl refl h

  pub to_wr_state-Syncs : (w : WrState) → Syncs (to_wr_state a opts w)
  unfolding to_wr_state leave_wr_state init_wr_data wr_timetout_manage
  to_wr_state-Syncs w sys h = SyncAsMaster-same refl refl (
      enter_wr-Syncs w (record sys { port = leave_wr_state a sys.port })
        (if_intro SyncAsMaster (is_idle sys.port.wr_port_state) _ _
          (λ _. SyncAsMaster-same refl refl h) (λ _. h)))

  give_up-Syncs : (mode : ℕ) → Syncs (give_up a opts mode)
  unfolding give_up init_wr_data
  give_up-Syncs mode sys h = SyncAsMaster-same refl refl (
      to_state-SyncAsMaster a opts (fallback opts mode) _
        (to_wr_state-Syncs WrState.idle _ (SyncAsMaster-same refl refl h)))

  pub wr_timer_expired-Syncs : (mode : ℕ) (w : WrState) → Syncs (wr_timer_expired a opts mode w)
  unfolding wr_timer_expired check_timer
  wr_timer_expired-Syncs mode w sys h =
      let checked = (check_timer a w sys).0 in
      let kept : IsSynced checked = SyncAsMaster-same refl refl h in
      if_intro IsSynced (is_idle w) _ _ (λ _. h)
        (λ _.
          if_intro IsSynced (timer_expired a.tics (timer_at sys.port.wr_timers (wrs_index w))).1 _ _
            (λ _.
              if_intro IsSynced (ltb checked.port.current_wr_state_cnt (retries w checked.port)) _ _
                (λ _. to_wr_state-Syncs w checked kept) (λ _. give_up-Syncs mode checked kept))
            (λ _. kept))

  pub attempt-Syncs :
      (c : LinkCall) (answer : Bool) (effect : PtpPortDs → PtpPortDs) (next : Sys → Sys)
      → ((port : PtpPortDs) → SyncAsMaster port → SyncAsMaster (effect port))
      → Syncs next
      → Syncs (attempt c answer effect next)
  unfolding attempt
  attempt-Syncs c answer effect next keeps onwards sys h =
      if_intro IsSynced answer _ _ (λ _. onwards _ (keeps sys.port h)) (λ _. h)

  module _ (x : Calibrates) where
    finish-Syncs : Syncs (finish_calibration a opts x)
    unfolding finish_calibration
    finish-Syncs sys h =
        SyncAsMaster-same refl refl
          (to_wr_state-Syncs WrState.calibrated _ (issue_wr-Syncs calibrated_id sys h))

    from_7-Syncs : Syncs (calibrate_from_7 a opts x)
    unfolding calibrate_from_7
    from_7-Syncs = attempt-Syncs _ _ _ _ (λ p h. SyncAsMaster-same refl refl h) finish-Syncs

    from_6-Syncs : Syncs (calibrate_from_6 a opts x)
    unfolding calibrate_from_6
    from_6-Syncs = attempt-Syncs _ _ _ _ (λ p h. SyncAsMaster-same refl refl h) from_7-Syncs

    from_5-Syncs : Syncs (calibrate_from_5 a opts x)
    unfolding calibrate_from_5
    from_5-Syncs = attempt-Syncs _ _ _ _ (λ p h. SyncAsMaster-same refl refl h) from_6-Syncs

    from_4-Syncs : Syncs (calibrate_from_4 a opts x)
    unfolding calibrate_from_4
    from_4-Syncs = attempt-Syncs _ _ _ _ (λ p h. SyncAsMaster-same refl refl h) from_5-Syncs

    from_3-Syncs : Syncs (calibrate_from_3 a opts x)
    unfolding calibrate_from_3
    from_3-Syncs = attempt-Syncs _ _ _ _ (λ p h. SyncAsMaster-same refl refl h) from_4-Syncs

    from_2-Syncs : Syncs (calibrate_from_2 a opts x)
    unfolding calibrate_from_2
    from_2-Syncs = attempt-Syncs _ _ _ _ (λ p h. SyncAsMaster-same refl refl h) from_3-Syncs

    from_1-Syncs : Syncs (calibrate_from_1 a opts x)
    unfolding calibrate_from_1
    from_1-Syncs = attempt-Syncs _ _ _ _ (λ p h. SyncAsMaster-same refl refl h) from_2-Syncs

    from_0-Syncs : Syncs (calibrate_from_0 a opts x)
    unfolding calibrate_from_0
    from_0-Syncs = attempt-Syncs _ _ _ _ (λ p h. SyncAsMaster-same refl refl h) from_1-Syncs

    pub do_calibration-Syncs : (w : WrState) → Syncs (do_calibration a opts x w)
    unfolding do_calibration
    do_calibration-Syncs WrState.calibration = from_0-Syncs
    do_calibration-Syncs WrState.calibration_1 = from_1-Syncs
    do_calibration-Syncs WrState.calibration_2 = from_2-Syncs
    do_calibration-Syncs WrState.calibration_3 = from_3-Syncs
    do_calibration-Syncs WrState.calibration_4 = from_4-Syncs
    do_calibration-Syncs WrState.calibration_5 = from_5-Syncs
    do_calibration-Syncs WrState.calibration_6 = from_6-Syncs
    do_calibration-Syncs WrState.calibration_7 = from_7-Syncs
    do_calibration-Syncs WrState.calibration_8 = finish-Syncs
    do_calibration-Syncs w = λ sys h. h

  module _ (x : Locks) (priority : ℕ) where
    lock_2-Syncs : Syncs (lock_from_2 a opts x priority)
    unfolding lock_from_2
    lock_2-Syncs sys = attempt-Syncs _ _ _ _ (λ p h. h) (to_wr_state-Syncs WrState.locked) sys

    lock_1-Syncs : Syncs (lock_from_1 a opts x priority)
    unfolding lock_from_1
    lock_1-Syncs sys = attempt-Syncs _ _ _ _ (λ p h. SyncAsMaster-same refl refl h) lock_2-Syncs sys

    lock_0-Syncs : Syncs (lock_from_0 a opts x priority)
    unfolding lock_from_0
    lock_0-Syncs sys = attempt-Syncs _ _ _ _ (λ p h. SyncAsMaster-same refl refl h) lock_1-Syncs sys

    lock_with-Syncs : (w : WrState) → Syncs (lock_with a opts x priority w)
    unfolding lock_with
    lock_with-Syncs WrState.s_lock = lock_0-Syncs
    lock_with-Syncs WrState.s_lock_1 = lock_1-Syncs
    lock_with-Syncs WrState.s_lock_2 = lock_2-Syncs
    lock_with-Syncs w = λ sys h. h

  pub do_lock-Syncs : (x : Locks) (w : WrState) → Syncs (do_lock a opts x w)
  unfolding do_lock
  do_lock-Syncs x w sys h =
      if_intro IsSynced (sys.port.wr_slave_role == primary_slave) _ _
        (λ _. lock_with-Syncs x 0 w sys h)
        (λ _.
          if_intro IsSynced (sys.port.wr_slave_role == secondary_slave) _ _
            (λ _. lock_with-Syncs x 1 w sys h) (λ _. h))
