-- ===== src/Bmc.antt =====
-- PTPWRd/bmc.c, one module for each part of the algorithm: the data set comparison, the updates of
-- the data sets, the state decision, and the choice of the best foreign master.
pub mod Compare
pub mod Update
pub mod Decision
pub mod Best
