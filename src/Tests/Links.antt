-- ===== src/Tests/Links.antt =====
-- Runs of the link setup.
use ptp_noposix.Prelude.{refl, ◌∷◌, zero, suc, replicate}
use ptp_noposix.Prelude.Int.{pos}
use ptp_noposix.Timer.Laws.{armed}
use ptp_noposix.Constants.{WrState}
use ptp_noposix.Datatypes.{PtpPortDs}
use ptp_noposix.Datatypes.Empty.{empty_interval_timer}
use ptp_noposix.Wr.{initial_timeouts}
use ptp_noposix.Wr.Laws.{OnlyRuns}
use ptp_noposix.Tests.Samples.{port_of_number}

-- The slave is in WRS_PRESENT since time 100.
abbrev present_port : PtpPortDs
present_port = record (port_of_number 1) {
  wr_port_state = WrState.present;
  wr_timers = armed 100 1000 ∷ replicate 7 empty_interval_timer;
  wr_timeouts = initial_timeouts (pos 300);
}

pub present_port-OnlyRuns : OnlyRuns WrState.present present_port.wr_timers
present_port-OnlyRuns zero ne = absurd (ne refl)
present_port-OnlyRuns (suc zero) ne = refl
present_port-OnlyRuns (suc (suc zero)) ne = refl
present_port-OnlyRuns (suc (suc (suc zero))) ne = refl
present_port-OnlyRuns (suc (suc (suc (suc zero)))) ne = refl
present_port-OnlyRuns (suc (suc (suc (suc (suc zero))))) ne = refl
present_port-OnlyRuns (suc (suc (suc (suc (suc (suc zero)))))) ne = refl
present_port-OnlyRuns (suc (suc (suc (suc (suc (suc (suc zero))))))) ne = refl
present_port-OnlyRuns (suc (suc (suc (suc (suc (suc (suc (suc j)))))))) ne = refl
