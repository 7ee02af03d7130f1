-- ===== src/Servo.antt =====
-- PTPWRd/dep/wr_servo.c: the state of the servo and of what it exports (`wr_servo_state_t` of
-- PTPWRd/dep/datatypes_dep.h, `ptpdexp_sync_state_t` of PTPWRd/ptpd_exports.h and the static variables),
-- with the operations that feed it; Servo/Update.antt is `wr_servo_update`. The calls of libptpnetif that
-- steer the hardware are kept as a list, the first call first; what the hardware answers is an
-- argument. Names of interfaces, debugging output and the fields that are never used are left out.
pub mod Update
pub mod Laws
pub mod Delay
pub mod Tracking
use ptp_noposix.Prelude.{
  ℕ, ◌+◌, ◌*◌, ◌/◌, ◌%◌, ◌^◌, List, [], ◌∷◌, ◌++◌, Bool, true, false, Option, none, some, u32,
}
use ptp_noposix.Prelude.Int.{ℤ, pos, negsuc, scale, quot, i32, signed32}
use ptp_noposix.Time.{TimeInternal}
use ptp_noposix.Stamp.{WrStamp, timeint_to_wr}
use ptp_noposix.Datatypes.{FixedDelta, PtpPortDs}

-- The WR_* states of the servo; 0 before `wr_servo_init`.
pub data ServoState : Type 0 where
  unset : ServoState
  sync_nsec : ServoState
  sync_tai : ServoState
  sync_phase : ServoState
  track_phase : ServoState
  wait_sync_idle : ServoState
  wait_offset_stable : ServoState

-- The texts of `slave_servo_state`.
pub data ServoLabel : Type 0 where
  empty : ServoLabel
  uninitialized : ServoLabel
  label_sync_sec : ServoLabel
  label_sync_nsec : ServoLabel
  label_sync_phase : ServoLabel
  label_track_phase : ServoLabel

-- ptpd_netif_enable_timing_output, ptpd_netif_adjust_counters and ptpd_netif_adjust_phase.
pub data HardwareCall : Type 0 where
  enable_timing_output : Bool → HardwareCall
  adjust_counters : (sec nsec : ℤ) → HardwareCall
  adjust_phase : ℤ → HardwareCall

pub record WrServoState : Type 0 where
  pub state : ServoState
  pub next_state : ServoState
  pub mu : WrStamp
  pub delta_tx_m : ℤ
  pub delta_rx_m : ℤ
  pub delta_tx_s : ℤ
  pub delta_rx_s : ℤ
  pub cur_setpoint : ℤ
  pub delta_ms : ℤ
  pub delta_ms_prev : ℤ
  pub t1 : WrStamp
  pub t2 : WrStamp
  pub t3 : WrStamp
  pub t4 : WrStamp
  pub last_tics : ℕ
  pub fiber_fix_alpha : ℤ
  pub clock_period_ps : ℕ
  pub missed_iters : ℕ

pub record PtpdexpSyncState : Type 0 where
  pub valid : Bool
  pub slave_servo_state : ServoLabel
  pub exported_tracking_enabled : Bool
  pub exported_mu : ℤ
  pub delay_ms : ℤ
  pub exported_delta_tx_m : ℤ
  pub exported_delta_rx_m : ℤ
  pub exported_delta_tx_s : ℤ
  pub exported_delta_rx_s : ℤ
  pub fiber_asymmetry : ℤ
  pub total_asymmetry : ℤ
  pub cur_offset : ℤ
  pub exported_cur_setpoint : ℤ
  pub cur_skew : ℤ
  pub update_count : ℕ

-- The servo of the port, the variables of the file, `doRestart` of the port, and the calls made.
pub record Servo : Type 0 where
  pub s : WrServoState
  pub cur_servo_state : PtpdexpSyncState
  pub servo_state_valid : Bool
  pub got_sync : Bool
  pub tracking_enabled : Bool
  pub ph_adjust : ℤ
  pub do_restart : Bool
  pub calls : List HardwareCall

unfoldable pub call : HardwareCall → Servo → Servo
call c g = record g { calls = g.calls ++ c ∷ [] }

unfoldable pub wr_servo_enable_tracking : Bool → Servo → Servo
wr_servo_enable_tracking enable g = record g { tracking_enabled = enable }

unfoldable pub wr_servo_reset : Servo → Servo
wr_servo_reset g = record g {
  cur_servo_state = record (g.cur_servo_state) { valid = false };
  servo_state_valid = false;
}

-- Picoseconds from the two words of scaledPicoseconds: the fraction is shifted out.
unfoldable pub unscaled : FixedDelta → ℤ
unscaled d = signed32 (d.lsb / 2 ^ 16 % 2 ^ 16 + d.msb % 2 ^ 16 * 2 ^ 16)

-- `calibration` is what ptpd_netif_read_calibration_data gives: the coefficient of the fiber and the
-- period of the clock, or a failure, which -1 reports.
unfoldable pub wr_servo_init : (calibration : Option (ℤ × ℕ)) → PtpPortDs → Servo → Servo × ℤ
wr_servo_init none port g = (g, negsuc 0)
wr_servo_init (some (alpha, period)) port g = (
  call (enable_timing_output false) (record g {
    s = record (g.s) {
      fiber_fix_alpha = alpha;
      clock_period_ps = period;
      state = ServoState.sync_tai;
      cur_setpoint = pos 0;
      missed_iters = 0;
      delta_tx_m = unscaled port.other_node_delta_tx;
      delta_rx_m = unscaled port.other_node_delta_rx;
      delta_tx_s = unscaled port.delta_tx;
      delta_rx_s = unscaled port.delta_rx;
    };
    cur_servo_state = record (g.cur_servo_state) {
      exported_delta_tx_m = unscaled port.other_node_delta_tx;
      exported_delta_rx_m = unscaled port.other_node_delta_rx;
      exported_delta_tx_s = unscaled port.delta_tx;
      exported_delta_rx_s = unscaled port.delta_rx;
      slave_servo_state = ServoLabel.uninitialized;
      valid = true;
      update_count = 0;
    };
    servo_state_valid = true;
    got_sync = false;
  }),
  pos 0,
)

unfoldable pub wr_servo_man_adjust_phase : ℤ → Servo → Servo × ℤ
wr_servo_man_adjust_phase phase g = (record g { ph_adjust = phase }, phase)

unfoldable pub wr_servo_got_sync : (t1 t2 : TimeInternal) → Servo → Servo
wr_servo_got_sync t1 t2 g = record g {
  s = record (g.s) {
    t1 = record (timeint_to_wr t1) { correct = pos 1 };
    t2 = record (timeint_to_wr t2) { correct = t2.correct };
  };
  got_sync = true;
}

-- `delay_req_tx_ts` and `delay_req_receive_time` are fields of the port.
unfoldable pub wr_servo_got_delay :
    (delay_req_tx_ts : WrStamp) (delay_req_receive_time : TimeInternal) (cf : ℤ) → Servo → Servo
wr_servo_got_delay delay_req_tx_ts delay_req_receive_time cf g = record g {
  s = record (g.s) {
    t3 = delay_req_tx_ts;
    t4 = record (timeint_to_wr delay_req_receive_time) {
      correct = pos 1;
      phase = i32 (quot (scale 1000 cf) 65536);
    };
  };
}
