-- ===== src/Tests/Tables.antt =====
-- Runs of the operations on the table of a port.
use ptp_noposix.Prelude.{refl, inl, arith}
use ptp_noposix.Bmc.Best.{er_best}
use ptp_noposix.Foreign.Laws.{IsTable}
use ptp_noposix.Foreign.Table.{er_best-IsTable}
use ptp_noposix.Tests.Samples.{full_port}

two_records-IsTable : IsTable (full_port 1)
two_records-IsTable = (refl, omega arith, omega arith, inl (omega arith), λ h. absurd (omega arith))

er_best-IsTable_example : IsTable (er_best (full_port 1).foreign (full_port 1)).1
er_best-IsTable_example = er_best-IsTable (full_port 1) two_records-IsTable
