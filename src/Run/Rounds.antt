-- ===== src/Run/Rounds.antt =====
-- The sync timer and the state of a port over whole rounds of `singlePortLoop`.
use ptp_noposix.Prelude.{◌≡◌, ℕ, ltb, refl, List, [], ◌∷◌, false, if_intro, ◌==◌, ◌&&◌, ◌||◌, not}
use ptp_noposix.Prelude.Int.{pos, eqb_ℤ, ltb_ℤ}
use ptp_noposix.Timer.{IntervalTimer, timer_expired, timer_init}
use ptp_noposix.Constants.{PtpState, wr_master, wr_slave, wr_s_only, wr_m_only}
use ptp_noposix.Datatypes.{ForeignMasterRecord, Timers, PtpClockDs, RunTimeOpts}
use ptp_noposix.Wr.{is_idle}
use ptp_noposix.Bmc.Update.{m1, m3, p1, s1, s2}
use ptp_noposix.Bmc.Compare.{bmc_data_set_comparison}
use ptp_noposix.Bmc.Decision.{
  Outcome, data_set, local_data_set, copied, decide_primary, decide_other, bmc_state_decision, bmc,
  is_master, is_listening, is_better_by_topology,
}
use ptp_noposix.Bmc.Best.{record_at}
use ptp_noposix.Foreign.{clear_foreign_masters}
use ptp_noposix.Port.{Answered, Sys}
use ptp_noposix.Port.Running.{SyncAsMaster, not_syncing, to_state-SyncAsMaster}
use ptp_noposix.Port.Synced.{
  SyncAsMaster-same, SyncAsMaster-interval, timer_expired-interval, IsSynced, Syncs,
}
use ptp_noposix.Issue.{issue_sync}
use ptp_noposix.Issue.Synced.{
  Holds, announce-Syncs, sync-Syncs, followup-Syncs, delay_req-Syncs, pdelay_req-Syncs,
}
use ptp_noposix.Handle.{handle}
use ptp_noposix.Handle.Synced.{branch-Syncs}
use ptp_noposix.Run.Synced.{handle-Syncs, do_wr_state-Syncs}
use ptp_noposix.Run.State.{
  Turn, same_state, synchronization_fault, comes_uncalibrated, follow_decision, is_deciding, decide,
  when_expired, with_m1, is_slave_only, abandoned, lose_master, poll_pdelay_req, poll_delay_req,
  poll_receipt, listen, send_sync, poll_sync, poll_announce, serve, set_up_link, act_on, do_state,
}
use ptp_noposix.Run.Start.{do_init}
use ptp_noposix.Run.Loop.{
  Round, forget_masters, restart, go_down, follow_link, single_port_loop, run_rounds,
}

module _ (opts : RunTimeOpts) where
  with_m1-Syncs : Syncs with_m1
  unfolding m1
  with_m1-Syncs sys h = SyncAsMaster-same refl refl h

  -- The decision leaves the state and the timers of the port.
  bmc-Holds :
      (erbest best : ForeignMasterRecord) (clock : PtpClockDs)
      → Holds (λ port. (bmc erbest best clock port).2)
  unfolding bmc bmc_state_decision decide_primary decide_other m1 m3 p1 s1 s2
  bmc-Holds erbest best clock port h =
      let local = local_data_set (copied clock port) in
      let receiver = port.port_identity.clock_identity in
      let comp_primary = bmc_data_set_comparison local (data_set erbest) receiver in
      let comp = bmc_data_set_comparison local (data_set best) receiver in
      let kept : Outcome → Type 0 = λ x. SyncAsMaster x.2 in
      if_intro kept (ltb_ℤ clock.ebest (pos 0) && is_master port.port_state) _ _
        (λ _. SyncAsMaster-same refl refl h)
        (λ _.
          if_intro kept (port.wr_config == wr_s_only) _ _ (λ _. SyncAsMaster-same refl refl h)
            (λ _.
              if_intro kept (port.wr_config == wr_m_only) _ _ (λ _. SyncAsMaster-same refl refl h)
                (λ _.
                  if_intro kept (port.number_foreign_records == 0 && is_listening port.port_state) _
                    _ (λ _. h)
                    (λ _.
                      if_intro kept (ltb clock.clock_quality.clock_class 128) _ _
                        (λ _.
                          if_intro kept (ltb_ℤ comp_primary (pos 0)) _ _
                            (λ _. SyncAsMaster-same refl refl h)
                            (λ _.
                              if_intro kept (ltb_ℤ (pos 0) comp_primary) _ _
                                (λ _. SyncAsMaster-same refl refl h)
                                (λ _. SyncAsMaster-same refl refl h)))
                        (λ _.
                          if_intro kept (ltb_ℤ comp (pos 0)) _ _
                            (λ _. SyncAsMaster-same refl refl h)
                            (λ _.
                              if_intro kept (ltb_ℤ (pos 0) comp) _ _
                                (λ _.
                                  if_intro kept
                                    (best.reception_port_number == port.port_identity.port_number) _
                                    _ (λ _. SyncAsMaster-same refl refl h)
                                    (λ _.
                                      if_intro kept
                                        (is_better_by_topology (
                                          bmc_data_set_comparison (data_set best) (data_set erbest)
                                            receiver))
                                        _ _ (λ _. SyncAsMaster-same refl refl h)
                                        (λ _. SyncAsMaster-same refl refl h)))
                                (λ _. SyncAsMaster-same refl refl h)))))))

  follow_decision-Syncs : (a : Answered) (state : PtpState) → Syncs (follow_decision a opts state)
  unfolding follow_decision
  follow_decision-Syncs a state sys h =
      branch-Syncs opts (not (same_state state sys.port.port_state)) _ _
        (branch-Syncs opts
          (same_state state PtpState.slave && comes_uncalibrated sys.port.port_state) _ _
          (to_state-SyncAsMaster a opts PtpState.uncalibrated _ (SyncAsMaster-same refl refl h))
          (to_state-SyncAsMaster a opts state sys h))
        (branch-Syncs opts (synchronization_fault sys.port) _ _
          (to_state-SyncAsMaster a opts PtpState.uncalibrated sys h) h)

  decide-Syncs : (t : Turn) → Syncs (decide t opts)
  unfolding decide
  decide-Syncs t sys h =
      let noted = record (sys.port) { record_update = false } in
      let erbest = record_at sys.port.foreign sys.port.foreign_record_best in
      let out = bmc erbest t.best_foreign sys.clock noted in
      branch-Syncs opts
        (is_deciding sys.port.port_state
          && (sys.clock.global_state_decision_event && is_idle sys.port.wr_port_state))
        _ _
        (follow_decision-Syncs t.decided out.0 _
          (bmc-Holds erbest t.best_foreign sys.clock noted (SyncAsMaster-same refl refl h)))
        h

  -- Asking a timer, of which the sync timer keeps its interval.
  when_expired-Syncs :
      (a : Answered) (get : Timers → IntervalTimer) (put : IntervalTimer → Timers → Timers)
      (act : Sys → Sys)
      → ((t : Timers) → (put ((timer_expired a.tics (get t)).0) t).sync.interval ≡ t.sync.interval)
      → Syncs act
      → Syncs (when_expired a get put act)
  unfolding when_expired
  when_expired-Syncs a get put act same onwards sys h =
      let kept = SyncAsMaster-interval refl (same sys.port.timers) h in
      branch-Syncs opts ((timer_expired a.tics (get sys.port.timers)).1) _ _ (onwards _ kept) kept

  lose_master-Syncs : (a : Answered) → Syncs (lose_master a opts)
  unfolding lose_master
  lose_master-Syncs a sys h =
      let kept : IsSynced (abandoned sys) = SyncAsMaster-same refl refl h in
      branch-Syncs opts (not (is_slave_only sys)) _ _
        (to_state-SyncAsMaster a opts PtpState.master _ (with_m1-Syncs (abandoned sys) kept))
        (branch-Syncs opts (not (same_state sys.port.port_state PtpState.listening)) _ _
          (to_state-SyncAsMaster a opts PtpState.listening _ kept) kept)

  module _ (t : Turn) where
    poll_pdelay_req-Syncs : Syncs (poll_pdelay_req t opts)
    unfolding poll_pdelay_req
    poll_pdelay_req-Syncs =
        when_expired-Syncs t.request _ _ _ (λ x. refl) (pdelay_req-Syncs t.request opts)

    listen-Syncs : Syncs (listen t opts)
    unfolding listen poll_delay_req poll_receipt
    listen-Syncs sys h =
        let polled : IsSynced (poll_receipt t opts (handle t.received opts sys)) =
          when_expired-Syncs t.entered _ _ _ (λ x. refl) (lose_master-Syncs t.entered) _
            (handle-Syncs opts t.received sys h) in
        branch-Syncs opts opts.e2e_mode _ _
          (when_expired-Syncs t.request _ _ _ (λ x. refl) (delay_req-Syncs t.request opts) _ polled)
          (poll_pdelay_req-Syncs _ polled)

    send_sync-Syncs : Syncs (send_sync t opts)
    unfolding send_sync
    send_sync-Syncs sys h =
        let sent = issue_sync t.sync opts sys in
        let kept = sync-Syncs t.sync opts sys h in
        branch-Syncs opts (eqb_ℤ sent.port.synch_tx_ts.correct (pos 0)) _ _ kept
          (followup-Syncs t.follow_up opts sent kept)

    serve-Syncs : Syncs (serve t opts)
    unfolding serve poll_sync poll_announce
    serve-Syncs sys h =
        let synced =
          when_expired-Syncs t.sync _ _ (send_sync t opts)
            (λ x. timer_expired-interval t.sync.tics x.sync) send_sync-Syncs _
            (handle-Syncs opts t.received sys h) in
        let polled : IsSynced
            (poll_announce t opts (poll_sync t opts (handle t.received opts sys))) =
          when_expired-Syncs t.announce _ _ _ (λ x. refl) (announce-Syncs t.announce opts) _
            synced in
        let asked = branch-Syncs opts opts.e2e_mode _ _ polled (poll_pdelay_req-Syncs _ polled) in
        branch-Syncs opts (is_slave_only _) _ _
          (to_state-SyncAsMaster t.entered opts PtpState.listening _ asked) asked

    set_up_link-Syncs : Syncs (set_up_link t opts)
    unfolding set_up_link
    set_up_link-Syncs sys h = SyncAsMaster-same refl refl (do_wr_state-Syncs opts t.link sys h)

    act_on-Syncs : (state : PtpState) → Syncs (act_on t opts state)
    unfolding act_on
    act_on-Syncs PtpState.faulty sys h =
        to_state-SyncAsMaster t.entered opts PtpState.initializing sys h
    act_on-Syncs PtpState.uncalibrated sys h =
        branch-Syncs opts (sys.port.wr_mode == wr_slave) _ _ (set_up_link-Syncs sys h)
          (SyncAsMaster-same refl refl (to_state-SyncAsMaster t.entered opts PtpState.slave sys h))
    act_on-Syncs PtpState.listening sys h =
        branch-Syncs opts (sys.port.wr_config == wr_m_only) _ _
          (to_state-SyncAsMaster t.entered opts PtpState.master _ (with_m1-Syncs sys h))
          (listen-Syncs sys h)
    act_on-Syncs PtpState.passive sys h = listen-Syncs sys h
    act_on-Syncs PtpState.slave sys h = listen-Syncs sys h
    act_on-Syncs PtpState.master sys h =
        branch-Syncs opts (sys.port.wr_mode == wr_master && not (is_idle sys.port.wr_port_state)) _
          _ (set_up_link-Syncs sys h) (serve-Syncs sys h)
    act_on-Syncs PtpState.disabled sys h = handle-Syncs opts t.received sys h
    act_on-Syncs state sys h = h

    do_state-Syncs : Syncs (do_state t opts)
    unfolding do_state
    do_state-Syncs sys h = act_on-Syncs (decide t opts sys).port.port_state _ (decide-Syncs t sys h)

  -- The timers of a port that is initialized do not run.
  do_init-Syncs : (a : Answered) (mode : ℕ) → Syncs (do_init a mode opts)
  unfolding do_init timer_init m1
  do_init-Syncs a mode sys h = to_state-SyncAsMaster a opts PtpState.listening _ (not_syncing refl)

  forget-Syncs : Syncs forget_masters
  unfolding forget_masters clear_foreign_masters
  forget-Syncs sys h =
      branch-Syncs opts (sys.port.wr_config == wr_s_only) _ _ (SyncAsMaster-same refl refl h) h

  follow_link-Syncs : (r : Round) → Syncs (follow_link r opts)
  unfolding follow_link restart go_down
  follow_link-Syncs r sys h =
      let kept = SyncAsMaster-same refl refl h in
      branch-Syncs opts ((r.is_port_up && not sys.port.link_up) || sys.servo.do_restart) _ _
        (forget-Syncs _ (
          do_init-Syncs r.restarted r.mode _
            (to_state-SyncAsMaster r.went opts PtpState.initializing _ kept)))
        (branch-Syncs opts (not r.is_port_up && sys.port.link_up) _ _
          (branch-Syncs opts ((forget_masters _).port.wr_mode == wr_s_only) _ _
            (forget-Syncs _ kept) (forget-Syncs _ kept))
          kept)

  single_port_loop-Syncs : (r : Round) → Syncs (single_port_loop r opts)
  unfolding single_port_loop
  single_port_loop-Syncs r sys h =
      let followed = follow_link r opts sys in
      let kept = follow_link-Syncs r sys h in
      branch-Syncs opts r.is_port_up _ _
        (branch-Syncs opts (not (same_state followed.port.port_state PtpState.initializing)) _ _
          (do_state-Syncs r.turn followed kept) (do_init-Syncs r.initialized r.mode followed kept))
        kept

  -- If the sync timer of a port runs only if the port is a master, then this holds after any number
  -- of rounds of the loop, whatever the link, the messages, the hardware, the network and the other
  -- ports do in them.
  pub run_rounds-SyncAsMaster :
      (rounds : List (PtpClockDs × Round)) (sys : Sys)
      → SyncAsMaster sys.port
      → SyncAsMaster ((run_rounds opts rounds sys).port)
  unfolding run_rounds
  run_rounds-SyncAsMaster [] sys h = h
  run_rounds-SyncAsMaster ((clock, r) ∷ rounds) sys h =
      run_rounds-SyncAsMaster rounds _ (single_port_loop-Syncs r (record sys { clock = clock }) h)
