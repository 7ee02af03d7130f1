-- ===== src/Bmc/Decision.antt =====
-- `bmcStateDecision` and `bmc` of PTPWRd/bmc.c (Fig 26). `best_foreign` is the record that the clock's
-- pointer `bestForeign` refers to; the answer comes with the clock and the port that are left.
pub mod Laws
use ptp_noposix.Prelude.{ℕ, ◌&&◌, ◌==◌, ltb, Bool, true, false, if◌then◌else◌}
use ptp_noposix.Prelude.Int.{ℤ, pos, negsuc, ltb_ℤ}
use ptp_noposix.Constants.{PtpState, wr_s_only, wr_m_only, a_better_by_topology_then_b}
use ptp_noposix.Datatypes.{ForeignMasterRecord, MsgHeader, MsgAnnounce, PtpClockDs, PtpPortDs}
use ptp_noposix.Bmc.Compare.{DataSet, bmc_data_set_comparison}
use ptp_noposix.Bmc.Update.{m1, m3, p1, s1, s2, copy_d0}

abbrev pub Outcome : Type 0
Outcome = PtpState × PtpClockDs × PtpPortDs

abbrev with_state : PtpState → PtpClockDs × PtpPortDs → Outcome
with_state state (clock, port) = (state, clock, port)

-- A foreign master as a side of the comparison.
abbrev pub data_set : ForeignMasterRecord → DataSet
data_set f = record {
  header = f.header;
  announce = f.announce;
  reception_port_number = f.reception_port_number;
}

-- The local data set, after `copyD0` has left it in the temporary message of the port.
abbrev pub local_data_set : PtpPortDs → DataSet
local_data_set port = record {
  header = port.msg_tmp_header;
  announce = port.msg_tmp_announce;
  reception_port_number = port.port_identity.port_number;
}

abbrev pub is_listening : PtpState → Bool
is_listening PtpState.listening = true
is_listening _ = false

abbrev pub is_better_by_topology : ℤ → Bool
is_better_by_topology (negsuc n) = n == 1
is_better_by_topology (pos n) = false

-- clockClass below 128: the port is master or passive.
unfoldable pub decide_primary : ForeignMasterRecord → PtpClockDs → PtpPortDs → Outcome
decide_primary erbest clock port =
    let comp =
      bmc_data_set_comparison (local_data_set port) (data_set erbest)
        port.port_identity.clock_identity in
    if ltb_ℤ comp (pos 0)
    then with_state PtpState.master (m1 clock port)
    else if ltb_ℤ (pos 0) comp
    then (PtpState.passive, clock, p1 port)
    else (PtpState.passive, clock, port)

-- The rest: compare with the best master of the clock, then ask where it was received.
unfoldable pub decide_other :
    ForeignMasterRecord → ForeignMasterRecord → PtpClockDs → PtpPortDs → Outcome
decide_other erbest best_foreign clock port =
    let receiver = port.port_identity.clock_identity in
    let comp = bmc_data_set_comparison (local_data_set port) (data_set best_foreign) receiver in
    if ltb_ℤ comp (pos 0)
    then with_state PtpState.master (m1 clock port)
    else if ltb_ℤ (pos 0) comp
    then if best_foreign.reception_port_number == port.port_identity.port_number
      then with_state PtpState.slave (s1 erbest.header erbest.announce clock port)
      else if is_better_by_topology
          (bmc_data_set_comparison (data_set best_foreign) (data_set erbest) receiver)
      then (PtpState.slave, clock, s2 erbest.header port)
      else (PtpState.master, clock, m3 port)
    else (PtpState.passive, clock, port)

-- The local data set stays in the temporary message of the port.
abbrev pub copied : PtpClockDs → PtpPortDs → PtpPortDs
copied clock port =
    let (header, announce) = copy_d0 clock port in
    record port { msg_tmp_header = header; msg_tmp_announce = announce }

unfoldable pub bmc_state_decision :
    ForeignMasterRecord → ForeignMasterRecord → PtpClockDs → PtpPortDs → Outcome
bmc_state_decision erbest best_foreign clock port =
    if port.wr_config == wr_s_only
    then with_state PtpState.slave (s1 erbest.header erbest.announce clock port)
    else if port.wr_config == wr_m_only
    then with_state PtpState.master (m1 clock port)
    else if port.number_foreign_records == 0 && is_listening port.port_state
    then (PtpState.listening, clock, port)
    else if ltb clock.clock_quality.clock_class 128
    then decide_primary erbest clock (copied clock port)
    else decide_other erbest best_foreign clock (copied clock port)

abbrev pub is_master : PtpState → Bool
is_master PtpState.master = true
is_master _ = false

-- `erbest` is the record at `foreign_record_best`.
unfoldable pub bmc : ForeignMasterRecord → ForeignMasterRecord → PtpClockDs → PtpPortDs → Outcome
bmc erbest best_foreign clock port =
    if ltb_ℤ clock.ebest (pos 0) && is_master port.port_state
    then with_state port.port_state (m1 clock port)
    else bmc_state_decision erbest best_foreign clock port
