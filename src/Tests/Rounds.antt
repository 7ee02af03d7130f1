-- ===== src/Tests/Rounds.antt =====
-- Rounds of a port.
use ptp_noposix.Prelude.{ℕ, refl, [], ◌∷◌, true}
use ptp_noposix.Constants.{PtpState}
use ptp_noposix.Port.{Sys}
use ptp_noposix.Port.Running.{SyncAsMaster, not_syncing}
use ptp_noposix.Run.State.{Turn}
use ptp_noposix.Run.Loop.{Round, run_rounds}
use ptp_noposix.Run.Rounds.{run_rounds-SyncAsMaster}
use ptp_noposix.Tests.Samples.{best_master, port_of_number}
use ptp_noposix.Tests.Setup.{at, opts}
use ptp_noposix.Tests.Passes.{measuring, stable}
use ptp_noposix.Tests.Exchanges.{two_step_clock, with_header, received}

abbrev turn_at : ℕ → Turn
turn_at tics = record {
  best_foreign = best_master;
  decided = at tics;
  received = received;
  link = record {
    received = received;
    calibrates = measuring;
    locks = stable;
    entered = at tics;
    completed = at tics;
    timed_out = at tics;
  };
  entered = at tics;
  request = at tics;
  sync = at tics;
  follow_up = at tics;
  announce = at tics;
}

abbrev round_at : ℕ → Round
round_at tics = record {
  is_port_up = true;
  mode = 4;
  went = at tics;
  restarted = at tics;
  initialized = at tics;
  turn = turn_at tics;
}

-- The link of the port comes up, then the receipt of announce messages times out.
abbrev starting : Sys
starting = with_header (record (port_of_number 1) { port_state = PtpState.initializing })

run_rounds-SyncAsMaster_example :
    SyncAsMaster
      (run_rounds opts
        ((two_step_clock, round_at 100) ∷ (two_step_clock, round_at 20000) ∷ [])
        starting).port
run_rounds-SyncAsMaster_example =
    run_rounds-SyncAsMaster opts
      ((two_step_clock, round_at 100) ∷ (two_step_clock, round_at 20000) ∷ []) starting
      (not_syncing refl)
