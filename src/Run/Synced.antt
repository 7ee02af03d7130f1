-- ===== src/Run/Synced.antt =====
-- The sync timer and the state of a port over whole rounds of `singlePortLoop`.
use ptp_noposix.Prelude.{refl, Bool, if◌then◌else◌, ◌==◌, ◌&&◌}
use ptp_noposix.Prelude.Int.{pos, eqb_ℤ, ltb_ℤ}
use ptp_noposix.Constants.{
  PtpState, WrState, header_length, wr_master, wr_slave, lock, calibrate, calibrated_id,
  wr_mode_on_id,
}
use ptp_noposix.Datatypes.{MsgHeader, RunTimeOpts}
use ptp_noposix.Wr.{return_current_wr_main_state}
use ptp_noposix.Port.{Sys}
use ptp_noposix.Port.Link.{to_wr_state}
use ptp_noposix.Port.Running.{to_state-SyncAsMaster}
use ptp_noposix.Port.Synced.{
  SyncAsMaster-same, to_faulty-SyncAsMaster, IsSynced, Syncs, to_wr_state-Syncs,
  wr_timer_expired-Syncs, attempt-Syncs, do_calibration-Syncs, do_lock-Syncs,
}
use ptp_noposix.Issue.{on_port}
use ptp_noposix.Handle.{
  Received, store_message, read_message, is_accepted, is_from_self, receive_time, dispatch, handle,
}
use ptp_noposix.Handle.Synced.{
  branch-Syncs, short-Syncs, handle_announce-Syncs, handle_sync-Syncs, handle_follow_up-Syncs,
  handle_delay_req-Syncs, handle_delay_resp-Syncs, handle_pdelay_req-Syncs,
  handle_pdelay_resp-Syncs, handle_pdelay_resp_follow_up-Syncs, handle_signaling-Syncs,
}
use ptp_noposix.Run.Link.{
  LinkTurn, do_present, do_m_lock, do_locked, do_calibrated, respond_from_0, respond_from_1,
  respond_from_2, respond_from_3, do_wr_link_on, act_in, do_wr_state,
}

module _ (opts : RunTimeOpts) where
  dispatch-Syncs : (r : Received) (header : MsgHeader) → Syncs (dispatch r opts header)
  unfolding dispatch
  dispatch-Syncs r header sys h =
      let self = is_from_self header sys.port in
      let time = receive_time opts self sys.port.current_rx_ts in
      let type = header.message_type in
      branch-Syncs opts (type == 0xB) _ _
        (handle_announce-Syncs opts r.reply header r.length self sys h)
        (branch-Syncs opts (type == 0x0) _ _ (handle_sync-Syncs opts header r.length self sys h) (
          branch-Syncs opts (type == 0x8) _ _
            (handle_follow_up-Syncs opts r.reply r.garbage header r.length self sys h)
            (branch-Syncs opts (type == 0x1) _ _
              (handle_delay_req-Syncs opts r.reply r.length sys h)
              (branch-Syncs opts (type == 0x2) _ _
                (handle_pdelay_req-Syncs opts r.reply time header r.length self sys h)
                (branch-Syncs opts (type == 0x3) _ _
                  (handle_pdelay_resp-Syncs opts r.reply r.garbage time header r.length self sys h)
                  (branch-Syncs opts (type == 0xA) _ _
                    (handle_pdelay_resp_follow_up-Syncs opts r.garbage header r.length sys h)
                    (branch-Syncs opts (type == 0x9) _ _
                      (handle_delay_resp-Syncs opts r.hardware r.garbage header r.length sys h)
                      (branch-Syncs opts (type == 0xC) _ _
                        (handle_signaling-Syncs opts r.reply self sys h) h))))))))

  pub handle-Syncs : (r : Received) → Syncs (handle r opts)
  unfolding handle store_message read_message
  handle-Syncs r sys h =
      let got = on_port (store_message r) sys in
      let kept : IsSynced got = SyncAsMaster-same refl refl h in
      let read = on_port read_message got in
      let read-kept : IsSynced read = SyncAsMaster-same refl refl h in
      short-Syncs opts (ltb_ℤ r.length (pos 0)) got _ kept (
        branch-Syncs opts (eqb_ℤ r.length (pos 0)) _ _ kept (
          branch-Syncs opts (ltb_ℤ r.length (pos header_length)) _ _
            (to_faulty-SyncAsMaster opts _ (SyncAsMaster-same refl refl h))
            (branch-Syncs opts (is_accepted read) _ _
              (dispatch-Syncs r read.port.msg_tmp_header read read-kept) read-kept)))

  module _ (t : LinkTurn) where
    -- A message that asks for the next state.
    asked-Syncs :
        (b : Bool) (w : WrState) (sys : Sys)
        → IsSynced sys
        → IsSynced (if b then to_wr_state t.entered opts w sys else sys)
    asked-Syncs b w sys h = branch-Syncs opts b _ _ (to_wr_state-Syncs t.entered opts w sys h) h

    respond_3-Syncs : Syncs (respond_from_3 t opts)
    unfolding respond_from_3
    respond_3-Syncs sys h =
        branch-Syncs opts (sys.port.wr_mode == wr_master) _ _
          (to_wr_state-Syncs t.entered opts WrState.wr_link_on sys h)
          (branch-Syncs opts (sys.port.wr_mode == wr_slave) _ _
            (to_wr_state-Syncs t.entered opts WrState.calibration sys h)
            (to_wr_state-Syncs t.entered opts WrState.idle sys h))

    respond_2-Syncs : Syncs (respond_from_2 t opts)
    unfolding respond_from_2
    respond_2-Syncs =
        attempt-Syncs t.entered opts _ _ _ _ (λ p h. SyncAsMaster-same refl refl h) respond_3-Syncs

    respond_1-Syncs : Syncs (respond_from_1 t opts)
    unfolding respond_from_1
    respond_1-Syncs sys h =
        let handled = handle t.received opts sys in
        let kept = handle-Syncs t.received sys h in
        branch-Syncs opts (handled.port.msg_tmp_wr_message_id == calibrated_id) _ _
          (respond_2-Syncs _ (SyncAsMaster-same refl refl kept)) kept

    respond_0-Syncs : Syncs (respond_from_0 t opts)
    unfolding respond_from_0
    respond_0-Syncs sys =
        attempt-Syncs t.entered opts _ _ _ _ (λ p h. SyncAsMaster-same refl refl h) respond_1-Syncs
          sys

    calibrated-Syncs : Syncs (do_calibrated t opts)
    unfolding do_calibrated
    calibrated-Syncs sys h =
        let handled = handle t.received opts sys in
        let to_answer =
          handled.port.msg_tmp_wr_message_id == calibrate && handled.port.wr_mode == wr_master in
        let asked =
          if to_answer
          then to_wr_state t.entered opts WrState.resp_calib_req handled
          else handled in
        let kept : IsSynced asked =
          asked-Syncs to_answer WrState.resp_calib_req handled (handle-Syncs t.received sys h) in
        branch-Syncs opts
          (asked.port.msg_tmp_wr_message_id == wr_mode_on_id && asked.port.wr_mode == wr_slave) _ _
          (to_wr_state-Syncs t.completed opts WrState.wr_link_on asked kept) kept

    link_on-Syncs : Syncs (do_wr_link_on t opts)
    unfolding do_wr_link_on
    link_on-Syncs sys h =
        let left = to_wr_state t.entered opts WrState.idle sys in
        let kept = to_wr_state-Syncs t.entered opts WrState.idle sys h in
        branch-Syncs opts (left.port.wr_mode == wr_slave) _ _
          (to_state-SyncAsMaster t.completed opts PtpState.slave left kept)
          (branch-Syncs opts (left.port.wr_mode == wr_master) _ _
            (to_state-SyncAsMaster t.completed opts PtpState.master left kept) kept)

    act_in-Syncs : (w : WrState) → Syncs (act_in t opts w)
    unfolding act_in do_present do_m_lock do_locked
    act_in-Syncs WrState.idle sys h = h
    act_in-Syncs WrState.present sys h =
        let handled = handle t.received opts sys in
        let kept = handle-Syncs t.received sys h in
        branch-Syncs opts (handled.port.msg_tmp_wr_message_id == lock) _ _
          (SyncAsMaster-same refl refl
            (to_wr_state-Syncs t.entered opts WrState.s_lock handled kept))
          kept
    act_in-Syncs WrState.s_lock sys h = do_lock-Syncs t.entered opts t.locks WrState.s_lock sys h
    act_in-Syncs WrState.s_lock_1 sys h =
        do_lock-Syncs t.entered opts t.locks WrState.s_lock_1 sys h
    act_in-Syncs WrState.s_lock_2 sys h =
        do_lock-Syncs t.entered opts t.locks WrState.s_lock_2 sys h
    act_in-Syncs WrState.m_lock sys h =
        asked-Syncs _ WrState.calibration _ (handle-Syncs t.received sys h)
    act_in-Syncs WrState.locked sys h =
        asked-Syncs _ WrState.resp_calib_req _ (handle-Syncs t.received sys h)
    act_in-Syncs WrState.calibrated sys h = calibrated-Syncs sys h
    act_in-Syncs WrState.resp_calib_req sys h = respond_0-Syncs sys h
    act_in-Syncs WrState.resp_calib_req_1 sys h = respond_1-Syncs sys h
    act_in-Syncs WrState.resp_calib_req_2 sys h = respond_2-Syncs sys h
    act_in-Syncs WrState.resp_calib_req_3 sys h = respond_3-Syncs sys h
    act_in-Syncs WrState.wr_link_on sys h = link_on-Syncs sys h
    act_in-Syncs w sys h = do_calibration-Syncs t.entered opts t.calibrates w sys h

    pub do_wr_state-Syncs : Syncs (do_wr_state t opts)
    unfolding do_wr_state
    do_wr_state-Syncs sys h =
        let acted = act_in t opts sys.port.wr_port_state sys in
        wr_timer_expired-Syncs t.timed_out opts acted.port.wr_mode
          (return_current_wr_main_state acted.port) acted
          (act_in-Syncs sys.port.wr_port_state sys h)
