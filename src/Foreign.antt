-- ===== src/Foreign.antt =====
-- The tables of foreign masters in PTPWRd/protocol.c: addForeign, clearForeignMasters,
-- globalBestForeignMastersUpdate, globalSecondSlavesUpdate, msgIsFromCurrentParent and
-- checkClockClassValidity.
pub mod Search
pub mod Laws
pub mod Table
pub mod Global
use ptp_noposix.Prelude.{
  ℕ, zero, suc, ◌+◌, ◌-◌, ◌%◌, List, [], ◌∷◌, map, set, ◌==◌, ◌&&◌, ltb, u16, Bool, true, false,
  not, if◌then◌else◌, Option, none, some, compare, Ordering,
}
use ptp_noposix.Prelude.Int.{pos}
use ptp_noposix.Constants.{secondary_slave}
use ptp_noposix.Datatypes.{Buf, PortIdentity, MsgHeader, ForeignMasterRecord, PtpClockDs, PtpPortDs}
use ptp_noposix.Timer.{timer_expired}
use ptp_noposix.Msg.Header.{msg_unpack_header}
use ptp_noposix.Msg.Announce.{msg_unpack_announce}
use ptp_noposix.Bmc.Compare.{memcmp_identity}
use ptp_noposix.Bmc.Decision.{data_set}
use ptp_noposix.Bmc.Best.{record_at, port_at, is_better, er_best, e_best}

abbrev is_eq : Ordering → Bool
is_eq Ordering.eq = true
is_eq _ = false

-- `!memcmp(clockIdentity) && (portNumber == portNumber)`.
unfoldable pub same_source : PortIdentity → PortIdentity → Bool
same_source a b =
    is_eq (memcmp_identity a.clock_identity b.clock_identity) && a.port_number == b.port_number

unfoldable pub msg_is_from_current_parent : MsgHeader → PtpClockDs → Bool
msg_is_from_current_parent header clock =
    same_source clock.parent_port_identity header.source_port_identity

-- The search for a known master, from `j` on and around the `n` records.
unfoldable pub find_from : PortIdentity → List ForeignMasterRecord → (n todo j : ℕ) → Option ℕ
find_from source table n zero j = none
find_from source table n (suc todo) j =
    let rest = find_from source table n todo ((j + 1) % n) in
    if same_source source (record_at table j).foreign_master_port_identity then some j else rest

-- The header and the message are unpacked into the record.
abbrev pub unpacked : Buf → ForeignMasterRecord → ForeignMasterRecord
unpacked buf f = record f {
  header = msg_unpack_header buf;
  announce = msg_unpack_announce f.announce buf;
}

abbrev pub refreshed : Buf → ForeignMasterRecord → ForeignMasterRecord
refreshed buf f =
    unpacked buf
      (record f { foreign_master_announce_messages = u16 (f.foreign_master_announce_messages + 1) })

abbrev pub created : Buf → MsgHeader → PtpPortDs → ForeignMasterRecord → ForeignMasterRecord
created buf header port f = unpacked buf (record f {
  foreign_master_port_identity = header.source_port_identity;
  foreign_master_announce_messages = 0;
  reception_port_number = port.port_identity.port_number;
})

-- What is done with the place that the search gave.
abbrev pub add_at : Buf → MsgHeader → PtpPortDs → Option ℕ → PtpPortDs
add_at buf header port (some j) = record port {
  foreign = set port.foreign j (refreshed buf (record_at port.foreign j));
}
add_at buf header port none =
    let n = port.number_foreign_records in
    let j = port.foreign_record_i in
    record port {
      number_foreign_records = if ltb n port.max_foreign_records then n + 1 else n;
      foreign_record_i = (j + 1) % port.max_foreign_records;
      foreign = set port.foreign j (created buf header port (record_at port.foreign j));
    }

abbrev pub known_at : PortIdentity → PtpPortDs → Option ℕ
known_at source port =
    find_from source port.foreign port.number_foreign_records port.number_foreign_records
      port.foreign_record_best

unfoldable pub add_foreign : Buf → MsgHeader → PtpPortDs → PtpPortDs
add_foreign buf header port = add_at buf header port (known_at header.source_port_identity port)

-- The records below the count are marked as empty.
unfoldable pub clear_records : ℕ → List ForeignMasterRecord → List ForeignMasterRecord
clear_records zero table = table
clear_records (suc n) [] = []
clear_records (suc n) (f ∷ table) = record f { reception_port_number = 0 } ∷ clear_records n table

unfoldable pub clear_foreign_masters : PtpPortDs → PtpPortDs
clear_foreign_masters port = record port {
  foreign = clear_records port.number_foreign_records port.foreign;
  foreign_record_i = 0;
  number_foreign_records = 0;
  foreign_record_best = 0;
}

-- `ErBest` is given the table of port `i` and port 0. The answer, and the ports.
unfoldable pub update_bests : List PtpPortDs → (todo i : ℕ) → Bool → Bool × List PtpPortDs
update_bests ports zero i updated = (updated, ports)
update_bests ports (suc todo) i updated =
    if (port_at ports i).record_update
    then update_bests (set ports 0 (er_best (port_at ports i).foreign (port_at ports 0)).1) todo
        (suc i) true
    else update_bests ports todo (suc i) updated

unfoldable pub global_best_foreign_masters_update :
    PtpClockDs → List PtpPortDs → Bool × (PtpClockDs × List PtpPortDs)
global_best_foreign_masters_update clock ports =
    let (updated, ports') = update_bests ports clock.number_ports 0 false in
    if updated then (true, ((e_best clock ports').1, ports')) else (false, (clock, ports'))

abbrev is_secondary : PtpPortDs → Bool
is_secondary port = port.wr_slave_role == secondary_slave

unfoldable pub first_secondary : List PtpPortDs → (todo i : ℕ) → ℕ
first_secondary ports zero i = i
first_secondary ports (suc todo) i =
    let rest = first_secondary ports todo (suc i) in
    if is_secondary (port_at ports i) then i else rest

unfoldable pub best_secondary_from : List PtpPortDs → (todo i ebest : ℕ) → ℕ
best_secondary_from ports zero i ebest = ebest
best_secondary_from ports (suc todo) i ebest = best_secondary_from ports todo (suc i) (
    if not (is_secondary (port_at ports i))
    then ebest
    else if is_better (port_at ports 0).port_identity.clock_identity
        (port_at ports i).secondary_foreign_master (port_at ports ebest).secondary_foreign_master
    then i
    else ebest)

unfoldable pub global_second_slaves_update : PtpClockDs → List PtpPortDs → Bool × PtpClockDs
global_second_slaves_update clock ports =
    let n = clock.number_ports in
    let first = first_secondary ports n 0 in
    let best = best_secondary_from ports (n - suc first) (suc first) first in
    if first == n then (false, clock) else (
      true,
      record clock {
        secondary_slave_port_number = (port_at ports best).port_identity.port_number;
        second_best_foreign = best;
      },
    )

-- The clock class is only kept while the external source is locked: `extsrcLocked()` is the argument.
unfoldable pub check_clock_class_validity : ℕ → Bool → PtpClockDs → PtpClockDs
check_clock_class_validity tics locked clock =
    let (timer, expired) = timer_expired tics clock.clock_class_validity_timer in
    let degraded = record (clock.clock_quality) { clock_class = 7 } in
    if clock.clock_quality.clock_class == 6
    then if expired
      then record clock {
        clock_class_validity_timer = timer;
        clock_quality = if locked then clock.clock_quality else degraded;
      }
      else clock
    else clock
