-- ===== src/Bmc/Best.antt =====
-- `ErBest` and `EBest` of PTPWRd/bmc.c: the best foreign master of a port and of the clock. A table is
-- read at the given index; `empty_record` stands for what is outside of it.
pub mod Laws
use ptp_noposix.Prelude.{
  ℕ, zero, suc, ◌+◌, ◌-◌, List, get_or, ◌==◌, ltb, u8, Bool, true, false, if◌then◌else◌,
}
use ptp_noposix.Prelude.Int.{ℤ, pos, ltb_ℤ}
use ptp_noposix.Datatypes.{ClockIdentity, ForeignMasterRecord, PtpClockDs, PtpPortDs}
use ptp_noposix.Datatypes.Empty.{empty_record, empty_port}
use ptp_noposix.Bmc.Compare.{bmc_data_set_comparison}
use ptp_noposix.Bmc.Decision.{data_set}

abbrev pub record_at : List ForeignMasterRecord → ℕ → ForeignMasterRecord
record_at table i = get_or table i empty_record

abbrev pub port_at : List PtpPortDs → ℕ → PtpPortDs
port_at ports i = get_or ports i empty_port

-- The record is better than the other one, by topology or not.
abbrev pub is_better : ClockIdentity → ForeignMasterRecord → ForeignMasterRecord → Bool
is_better receiver a b = ltb_ℤ (bmc_data_set_comparison (data_set a) (data_set b) receiver) (pos 0)

-- The loop over the next `todo` records, from record `i` on.
unfoldable pub er_best_from : ClockIdentity → List ForeignMasterRecord → (todo i best : ℕ) → ℕ
er_best_from receiver table zero i best = best
er_best_from receiver table (suc todo) i best =
    er_best_from receiver table todo (suc i)
      (if is_better receiver (record_at table i) (record_at table best) then i else best)

-- The answer (a UInteger8) and the port. The table need not be that of the port.
unfoldable pub er_best : List ForeignMasterRecord → PtpPortDs → ℕ × PtpPortDs
er_best table port =
    let best =
      er_best_from port.port_identity.clock_identity table (port.number_foreign_records - 1) 1 0 in
    if port.number_foreign_records == 0
    then (255, record port { foreign_record_best = 0 })
    else (u8 best, record port { foreign_record_best = best })

-- The first port with foreign masters, or the number of the ports.
unfoldable pub first_port : List PtpPortDs → (todo i : ℕ) → ℕ
first_port ports zero i = i
first_port ports (suc todo) i =
    let rest = first_port ports todo (suc i) in
    if ltb 0 (port_at ports i).number_foreign_records then i else rest

abbrev pub best_of : PtpPortDs → ForeignMasterRecord
best_of port = record_at port.foreign port.foreign_record_best

unfoldable pub e_best_from : ClockIdentity → List PtpPortDs → (todo i ebest : ℕ) → ℕ
e_best_from receiver ports zero i ebest = ebest
e_best_from receiver ports (suc todo) i ebest = e_best_from receiver ports todo (suc i) (
    if (port_at ports i).number_foreign_records == 0
    then ebest
    else if is_better receiver (best_of (port_at ports i)) (best_of (port_at ports ebest))
    then i
    else ebest)

-- The index of the best port, and the clock. The comparison takes the identity of port 0.
unfoldable pub e_best : PtpClockDs → List PtpPortDs → ℕ × PtpClockDs
e_best clock ports =
    let n = clock.number_ports in
    let first = first_port ports n 0 in
    let ebest =
      e_best_from (port_at ports 0).port_identity.clock_identity ports (n - suc first) (suc first)
        first in
    (
      u8 ebest,
      record clock {
        ebest = pos ebest;
        best_foreign = (ebest, (port_at ports ebest).foreign_record_best);
      },
    )
