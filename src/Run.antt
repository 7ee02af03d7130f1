-- ===== src/Run.antt =====
-- What drives a port: `doWRState` of PTPWRd/wr_protocol.c, and `doState`, `doInit` and the loops of
-- PTPWRd/protocol.c, with the initialization of the data of clock and ports in PTPWRd/bmc.c. Every call
-- of the hardware and of the network in one turn has its own answer.
pub mod Link
pub mod State
pub mod Start
pub mod Loop
pub mod Synced
pub mod Rounds
