-- ===== src/Run/Start.antt =====
-- `initDataPort` and `initDataClock` of PTPWRd/bmc.c, `autoDetectPortWrConfig` of PTPWRd/dep/net.c and
-- `doInit` of PTPWRd/protocol.c.
use ptp_noposix.Prelude.{
  ℕ, ◌+◌, List, get_or, ◌==◌, ◌!=◌, ◌&&◌, ◌||◌, u8, Bool, true, false, if◌then◌else◌,
}
use ptp_noposix.Prelude.Int.{negsuc}
use ptp_noposix.Timer.{timer_init, timer_start}
use ptp_noposix.Constants.{
  PtpState, non_wr, wr_m_only, wr_s_only, wr_m_and_s, wr_mode_auto, port_mode_wr_m_and_s,
  port_mode_wr_master, port_mode_wr_slave,
}
use ptp_noposix.Datatypes.{ClockIdentity, Timers, PtpClockDs, PtpPortDs, RunTimeOpts}
use ptp_noposix.Wr.{init_wr_data}
use ptp_noposix.Msg.Header.{msg_pack_header}
use ptp_noposix.Servo.{wr_servo_reset}
use ptp_noposix.Port.{Answered, Sys, with_timers, interval_of}
use ptp_noposix.Port.Enter.{to_state}
use ptp_noposix.Issue.{on_port}
use ptp_noposix.Run.State.{with_m1}

-- The six octets of the hardware address around FF FE; the octet behind them may be overridden, and then
-- the octets that follow are those of the address one place earlier.
unfoldable pub identity_of_address : (override : ℕ) → List ℕ → ClockIdentity
identity_of_address override uuid =
    let j = if override == 0 then 4 else 3 in
    record {
      o0 = get_or uuid 0 0;
      o1 = get_or uuid 1 0;
      o2 = get_or uuid 2 0;
      o3 = 0xFF;
      o4 = 0xFE;
      o5 = if override == 0 then get_or uuid 3 0 else override;
      o6 = get_or uuid j 0;
      o7 = get_or uuid (j + 1) 0;
    }

-- The fields that are copied from the options, then those of the link setup, then the constants.
unfoldable pub init_data_port :
    RunTimeOpts → (number_ports : ℕ) → (d_tx d_rx : ℕ) → PtpPortDs → PtpPortDs
init_data_port opts number_ports d_tx d_rx port =
    let identity = identity_of_address opts.override_clock_identity port.port_uuid_field in
    let configured = init_wr_data true d_tx d_rx (record port {
      clock_identity = identity;
      wr_config = opts.wr_config;
      phy_calibration_required = opts.phy_calibration_required;
      wr_state_timeout = opts.wr_state_timeout;
      wr_state_retry = opts.wr_state_retry;
      cal_period = opts.cal_period;
      cal_retry = u8 (number_ports + 2);
    }) in
    record configured {
      port_identity = record (configured.port_identity) { clock_identity = identity };
      log_min_delay_req_interval = 0;
      log_announce_interval = opts.announce_interval;
      announce_receipt_timeout = 6;
      log_sync_interval = opts.sync_interval;
      log_min_pdelay_req_interval = 1;
      version_number = 2;
      number_foreign_records = 0;
      max_foreign_records = opts.max_foreign_records;
    }

-- The clock claims to be a primary source of time.
unfoldable pub is_primary_source : RunTimeOpts → Bool
is_primary_source opts =
    opts.master_only || (opts.primary_source || opts.clock_quality.clock_class == 6)

-- The class that such a clock gets, by whether its external source is locked.
unfoldable pub set_source_class : (locked : Bool) → RunTimeOpts → RunTimeOpts
set_source_class locked opts =
    if is_primary_source opts
    then record opts {
      clock_quality = record (opts.clock_quality) { clock_class = if locked then 6 else 13 };
    }
    else opts

-- The options are changed too.
unfoldable pub init_data_clock :
    (tics : ℕ) → (locked : Bool) → RunTimeOpts → PtpClockDs → RunTimeOpts × PtpClockDs
init_data_clock tics locked opts clock =
    let classed = set_source_class locked opts in
    (
      classed,
      record clock {
        two_step_flag = true;
        number_ports = opts.port_number;
        clock_quality = classed.clock_quality;
        priority1 =
            if opts.priority1 == 128 && opts.wr_config != non_wr then 64 else opts.priority1;
        priority2 = opts.priority2;
        domain_number = opts.domain_number;
        clock_class_validity_timer =
            if is_primary_source opts && locked
            then timer_start tics (timer_init clock.clock_class_validity_timer) (interval_of 5)
            else clock.clock_class_validity_timer;
        primary_slave_port_number = 0;
        ebest = negsuc 0;
      },
    )

-- `mode` is what the hardware reports of the port.
unfoldable pub auto_detect_port_wr_config : (mode : ℕ) → PtpPortDs → PtpPortDs
auto_detect_port_wr_config mode port = record port {
  wr_config =
      if mode == port_mode_wr_m_and_s
      then wr_m_and_s
      else if mode == port_mode_wr_master
      then wr_m_only
      else if mode == port_mode_wr_slave
      then wr_s_only
      else non_wr;
}

abbrev pub init_timers : Timers → Timers
init_timers t = record {
  pdelay_req = timer_init t.pdelay_req;
  delay_req = timer_init t.delay_req;
  sync = timer_init t.sync;
  announce_receipt = timer_init t.announce_receipt;
  announce_interval = timer_init t.announce_interval;
}

-- The configuration of a port is detected where the options leave it open.
unfoldable pub configure : (mode : ℕ) → PtpPortDs → PtpPortDs
configure mode port =
    if port.wr_config == wr_mode_auto then auto_detect_port_wr_config mode port else port

unfoldable pub do_init : Answered → (mode : ℕ) → RunTimeOpts → Sys → Sys
do_init a mode opts sys =
    let port = configure mode (init_data_port opts sys.clock.number_ports a.d_tx a.d_rx sys.port) in
    let started = with_m1 (record sys {
      port = with_timers init_timers port;
      servo =
          (let calm = record (sys.servo) { do_restart = false } in
            if port.wr_config == wr_s_only then wr_servo_reset calm else calm);
    }) in
    to_state a opts PtpState.listening
      (on_port (λ p. record p { msg_obuf = msg_pack_header started.clock p p.msg_obuf }) started)
