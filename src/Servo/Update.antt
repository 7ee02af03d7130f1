-- ===== src/Servo/Update.antt =====
-- `wr_servo_update` of PTPWRd/dep/wr_servo.c: the measurement, the check of the lock, and the step of the
-- state machine.
use ptp_noposix.Prelude.{
  ℕ, ◌+◌, ◌-◌, ◌/◌, ◌^◌, Bool, true, false, not, ◌&&◌, ◌||◌, leb, if◌then◌else◌, u64,
}
use ptp_noposix.Prelude.Int.{
  ℤ, pos, ◌+ℤ◌, ◌-ℤ◌, ◌*ℤ◌, neg, scale, asr, i32, i64, signed64, pattern64, eqb_ℤ, ltb_ℤ,
}
use ptp_noposix.Stamp.{WrStamp, ts_to_picos, picos_to_ts, ts_add, ts_sub, ts_hardwarize}
use ptp_noposix.Servo.{
  ServoState, ServoLabel, enable_timing_output, adjust_counters, adjust_phase, WrServoState, Servo,
  call,
}

-- What the hardware answers in one update.
pub record Answers : Type 0 where
  pub tics : ℕ  -- ptpd_netif_get_msec_tics
  pub pll_ready : Bool  -- ptpd_netif_locking_poll gives PTPD_NETIF_READY
  pub adjust_in_progress : Bool  -- ptpd_netif_adjust_in_progress

abbrev pub stability_threshold : ℕ
stability_threshold = 60

-- The sum of the four fixed delays, as uint64_t.
unfoldable pub big_delta_fix : WrServoState → ℕ
big_delta_fix s = pattern64 (i32 (s.delta_tx_m +ℤ s.delta_tx_s +ℤ s.delta_rx_m +ℤ s.delta_rx_s))

-- The delay from the master to the slave in uint64_t: the round trip `mu` without the fixed delays, as
-- an unsigned number, is weighed by the coefficient of the fiber as a signed and halved as an unsigned
-- number.
unfoldable pub delay_ms_fix :
    (mu : ℤ) (big_delta : ℕ) (alpha delta_tx_m delta_rx_s ph_adjust : ℤ) → ℕ
delay_ms_fix mu big_delta alpha delta_tx_m delta_rx_s ph_adjust =
    let fiber = u64 (pattern64 mu + (2 ^ 64 - big_delta)) in
    u64 (
      pattern64 (asr (i64 (signed64 fiber *ℤ alpha)) 40)
      + fiber / 2
      + pattern64 delta_tx_m
      + pattern64 delta_rx_s
      + pattern64 ph_adjust)

-- The delays and the offset of one pair of messages in each direction. The offset in whole clock cycles
-- is the second component.
unfoldable pub measure : Servo → Servo × WrStamp
measure g =
    let s = g.s in
    let mu = ts_sub (ts_sub s.t4 s.t1) (ts_sub s.t3 s.t2) in
    let delay = signed64 (
      delay_ms_fix (ts_to_picos mu) (big_delta_fix s) s.fiber_fix_alpha s.delta_tx_m s.delta_rx_s
        g.ph_adjust) in
    let ts_offset = ts_add (ts_sub s.t1 s.t2) (picos_to_ts delay) in
    let total_asymmetry = i64 (ts_to_picos mu -ℤ i64 (scale 2 delay)) in
    (
      record g {
        got_sync = false;
        s = record s { mu = mu; delta_ms = delay };
        cur_servo_state = record (g.cur_servo_state) {
          update_count = u64 (g.cur_servo_state.update_count + 1);
          exported_mu = ts_to_picos mu;
          cur_offset = ts_to_picos ts_offset;
          delay_ms = delay;
          total_asymmetry = total_asymmetry;
          fiber_asymmetry = i64 (
              total_asymmetry
              -ℤ i32 (s.delta_tx_m +ℤ s.delta_rx_s)
              +ℤ i32 (s.delta_rx_m +ℤ s.delta_tx_s));
          exported_tracking_enabled = g.tracking_enabled;
        };
      },
      ts_hardwarize ts_offset s.clock_period_ps,
    )

-- A lost lock stops the output and asks for a restart of the port.
unfoldable pub check_lock : Bool → Servo → Servo
check_lock true g = g
check_lock false g = record (call (enable_timing_output false) g) { do_restart = true }

abbrev pub label : ServoLabel → Servo → Servo
label l g = record g { cur_servo_state = record (g.cur_servo_state) { slave_servo_state = l } }

abbrev pub enter : ServoState → Servo → Servo
enter state g = record g { s = record (g.s) { state = state } }

-- Wait until an adjustment is done, then go to `next`.
unfoldable pub await : (tics : ℕ) (next : ServoState) → Servo → Servo
await tics next g = record g {
  s = record (g.s) { next_state = next; state = ServoState.wait_sync_idle; last_tics = tics };
}

-- `abs` of stdlib.h, which takes an `int`.
unfoldable pub abs : ℤ → ℤ
abs a = if ltb_ℤ (i32 a) (pos 0) then i32 (neg (i32 a)) else i32 a

abbrev pub is_off : WrStamp → Bool
is_off offset = not (eqb_ℤ offset.sec (pos 0)) || not (eqb_ℤ offset.nsec (pos 0))

-- The judgement of the offset that is left: start again, track, or wait for the next one.
unfoldable pub judge_offset : WrStamp → Servo → Servo
unfolding abs
judge_offset offset g =
    if is_off offset
    then enter ServoState.sync_tai g
    else if ltb_ℤ (abs (ts_to_picos offset)) (pos stability_threshold)
    then enter ServoState.track_phase (call (enable_timing_output true) g)
    else record g { s = record (g.s) { missed_iters = g.s.missed_iters + 1 } }

unfoldable pub wait_stable : WrStamp → Servo → Servo
wait_stable offset g =
    let judged = judge_offset offset g in
    if leb 10 judged.s.missed_iters then enter ServoState.sync_tai judged else judged

unfoldable pub track : (tics : ℕ) → WrStamp → Servo → Servo
track tics offset g =
    let skew = i64 (g.s.delta_ms -ℤ g.s.delta_ms_prev) in
    let shown = record g {
      cur_servo_state = record (g.cur_servo_state) {
        slave_servo_state = ServoLabel.label_track_phase;
        exported_cur_setpoint = g.s.cur_setpoint;
        cur_skew = skew;
      };
    } in
    let checked = if is_off offset then enter ServoState.sync_tai shown else shown in
    let setpoint = i32 (g.s.cur_setpoint +ℤ skew) in
    if g.tracking_enabled
    then await tics ServoState.track_phase (
        call (adjust_phase setpoint) (record checked {
          s = record (checked.s) { cur_setpoint = setpoint; delta_ms_prev = g.s.delta_ms };
        }))
    else checked

-- One step of the state machine, by the state and the offset in clock cycles.
unfoldable pub advance_from : ServoState → Answers → WrStamp → Servo → Servo
advance_from ServoState.wait_sync_idle a offset g =
    if a.adjust_in_progress then g else enter g.s.next_state g
advance_from ServoState.sync_tai a offset g =
    let stopped = call (enable_timing_output false) g in
    if eqb_ℤ offset.sec (pos 0)
    then enter ServoState.sync_nsec stopped
    else await a.tics ServoState.sync_nsec (
        call (adjust_phase (pos 0))
          (call (adjust_counters offset.sec (pos 0)) (label ServoLabel.label_sync_sec stopped)))
advance_from ServoState.sync_nsec a offset g =
    let labelled = label ServoLabel.label_sync_nsec g in
    if eqb_ℤ offset.nsec (pos 0)
    then enter ServoState.sync_phase labelled
    else await a.tics ServoState.sync_nsec (call (adjust_counters (pos 0) offset.nsec) labelled)
advance_from ServoState.sync_phase a offset g =
    let labelled = label ServoLabel.label_sync_phase g in
    let setpoint = i32 (offset.phase +ℤ i32 (scale 1000 offset.nsec)) in
    await a.tics ServoState.wait_offset_stable (
      call (adjust_phase setpoint) (record labelled {
        s = record (labelled.s) { cur_setpoint = setpoint; delta_ms_prev = labelled.s.delta_ms };
      }))
advance_from ServoState.wait_offset_stable a offset g = wait_stable offset g
advance_from ServoState.track_phase a offset g = track a.tics offset g
advance_from ServoState.unset a offset g = g

-- Every time stamp of the exchange is marked as correct.
abbrev pub all_correct : WrServoState → Bool
all_correct s = not (
    eqb_ℤ (s.t1.correct) (pos 0)
    || eqb_ℤ (s.t2.correct) (pos 0)
    || eqb_ℤ (s.t3.correct) (pos 0)
    || eqb_ℤ (s.t4.correct) (pos 0))

unfoldable pub wr_servo_update : Answers → Servo → Servo
wr_servo_update a g =
    let (measured, offset) = measure g in
    let checked = check_lock a.pll_ready measured in
    if g.got_sync && all_correct g.s then advance_from g.s.state a offset checked else g
