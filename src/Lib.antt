-- ===== src/Lib.antt =====
-- The PTP daemon of White Rabbit (PTPWRd), as functions on explicit state.
--
-- The daemon synchronises clocks by IEEE 1588 with the White Rabbit extension. A clock (PtpClockDs)
-- has ports (PtpPortDs). A port packs and unpacks messages, keeps a table of the foreign masters that
-- it hears in Announce messages, and asks the best master clock algorithm for its recommended state.
-- On a White Rabbit link the two ports first set the link up (lock, calibrate), and then the servo of
-- the slave adjusts its clock.
--
-- Parts and files:
--   Prelude and its children: names of the library that are passed on, Boolean tests, the widths of C,
--     lists by index, integers over the native numbers, masks as remainders.
--   Time (PTPWRd/arith.c): TimeInternal, normalizeTime, addTime, subTime, integer64_to_internalTime,
--     fromInternalTime, toInternalTime. An int is an integer that is brought back to 32 bits after
--     every operation (i32); the result parameter of C is the first argument.
--   Timer (PTPWRd/dep/timer.c): IntervalTimer; the counter of milliseconds is an argument.
--   Constants, Datatypes (PTPWRd/constants.h, PTPWRd/datatypes.h, PTPWRd/dep/datatypes_dep.h): the
--     enumerations and structures; Datatypes/Empty has the structures filled with zeros.
--   Buf (the accessors at the top of PTPWRd/dep/msg.c): a buffer is a function from offsets to octets.
--   Msg/Header, Msg/Event, Msg/Peer, Msg/Announce, Msg/Signaling (PTPWRd/dep/msg.c): msgPackX and
--     msgUnpackX for the messages. Packing maps a buffer to a buffer; unpacking gives a structure.
--   Msg/RoundTrip and its children: what the receiver of a packed message reads.
--   Bmc/Compare (bmcDataSetComparison of PTPWRd/bmc.c), Bmc/Update (m1, m3, p1, s1, s2, copyD0),
--     Bmc/Decision (bmcStateDecision, bmc), Bmc/Best (ErBest, EBest).
--   Foreign (PTPWRd/protocol.c): addForeign, clearForeignMasters, globalBestForeignMastersUpdate,
--     globalSecondSlavesUpdate, msgIsFromCurrentParent, checkClockClassValidity.
--   Netif (libptpnetif/ptpd_netif.c): the time stamp of a received frame, with the timeouts, update_dmtd
--     and ptpd_netif_linearize_rx_timestamp.
--   Wr (PTPWRd/wr_protocol.c): returnCurrentWRMainState, wrTimetoutManage, initWrData.
--   Stamp (PTPWRd/dep/wr_servo.c, wr_timestamp_t of libptpnetif/ptpd_netif.h): ts_add, ts_sub,
--     ts_hardwarize, picos_to_ts, ts_to_picos.
--   Servo (PTPWRd/dep/wr_servo.c): the state of the servo and what feeds it; Servo/Update is
--     wr_servo_update, in three steps: the measurement, the check of the lock, the state machine.
--   Port (toState of PTPWRd/protocol.c, toWRState and wrTimerExpired of PTPWRd/wr_protocol.c): Sys is a
--     port with its clock, its servo and the calls that its handlers made; Port/Link is toWRState,
--     Port/Enter is toState, Port/Timeout is wrTimerExpired, Port/Attempt has the cases S_LOCK and
--     CALIBRATION of doWRState. The servo starts when a port becomes a slave; the link setup starts
--     when it becomes uncalibrated, and blocks toState until it is idle.
--   Issue (PTPWRd/protocol.c): issueAnnounce, issueSync, issueFollowup and the other issuers.
--   Handle (PTPWRd/protocol.c): handle; Handle/Announce, Handle/Sync (handleSync, handleFollowUp),
--     Handle/Delay (handleDelayReq, handleDelayResp), Handle/Peer (the three of the peer delay),
--     Handle/Signaling are the handlers of the messages.
--   Run/Link (doWRState of PTPWRd/wr_protocol.c), Run/State (doState of PTPWRd/protocol.c), Run/Start
--     (initDataPort and initDataClock of PTPWRd/bmc.c, doInit, autoDetectPortWrConfig of
--     PTPWRd/dep/net.c), Run/Loop (singlePortLoop, sharedPortsLoop, and the rounds of one port).
--   Exchange and its children: two ports, the output buffer of one given to handle of the other.
--   Tests and its children: runs on concrete values.
--
-- State and operations: a function of C that writes to the port, or through the port to the clock,
-- takes them and gives them back. Pointers to the local structures of a caller become results. The
-- pointer bestForeign is a pair of indices, of the port and of the record; where a function follows
-- it, the record is an argument. Trace output is left out.
--
-- Bounds: unsigned fields are native numbers, and a result that a C type cuts is cut by a remainder
-- (u8, u16, u32, u64). Loops over a table or over the ports are recursions on the number of the
-- iterations that are left, which C fixes before the loop, so that no fuel can run out. The host is
-- little-endian, as flip16 and flip32 of the source expect; this shows where one octet of a wider
-- field is compared. The while loops of ts_add and ts_sub have fuel: the number of the units in the
-- field, and one more where the field is negative.
--
-- Calls of ptpd_netif that steer the hardware, and messages that are sent, are appended to a list; what
-- the calls answer in one handler is a record (Answers, Answered, Received), in which each call has one
-- answer and the time stands still; a turn of doState (Turn) or doWRState (LinkTurn) has such a record
-- for each of the calls that it makes.
--
-- Outside of the model: extsrcLocked, the millisecond counter and the other calls of ptpd_netif are
-- arguments where the modelled code uses them. The record behind the end of a table, which C reads
-- where an index is out of range, is a structure of zeros. Left out are netInit and
-- the other functions of PTPWRd/dep/net.c, protocol (which is obsolete), the
-- parsing of options and the allocation, the display code, the sockets of libptpnetif, and the
-- libraries libposix and libminipc. The servo is that of one port, as the static variables of
-- PTPWRd/dep/wr_servo.c are.
pub mod Prelude
pub mod Time
pub mod Timer
pub mod Constants
pub mod Datatypes
pub mod Buf
pub mod Msg
pub mod Bmc
pub mod Foreign
pub mod Wr
pub mod Stamp
pub mod Servo
pub mod Netif
pub mod Port
pub mod Issue
pub mod Handle
pub mod Run
pub mod Exchange
pub mod Tests
