-- ===== src/Foreign/Laws.antt =====
-- The table of foreign masters of a port, before and after addForeign of PTPWRd/protocol.c.
use ptp_noposix.Prelude.{
  ℕ, ◌<◌, ◌≤◌, ◌≡◌, refl, ap, ◌∙◌, ◌⊎◌, set, length, length-set, get_or-set_self, true, Option,
  none, some, arith,
}
use ptp_noposix.Datatypes.{Buf, PortIdentity, MsgHeader, ForeignMasterRecord, PtpPortDs}
use ptp_noposix.Datatypes.Empty.{empty_record}
use ptp_noposix.Msg.Header.{msg_unpack_header}
use ptp_noposix.Bmc.Best.{record_at}
use ptp_noposix.Foreign.{same_source, refreshed, created, add_at, known_at, add_foreign}
use ptp_noposix.Foreign.Search.{
  mod_next, same_source_refl, source_at, IsFound, IsSound, find_from-IsFound, find_from-IsSound,
}

-- The table has its full length; the count, the place of the next record and the best record are in
-- range, and while the table is not full the next record goes behind the last one.
abbrev pub IsTable : PtpPortDs → Type 0
IsTable port =
    (length port.foreign ≡ port.max_foreign_records)
    × (port.number_foreign_records ≤ port.max_foreign_records)
    × (port.foreign_record_i < port.max_foreign_records)
    × ((port.foreign_record_best < port.number_foreign_records) ⊎ (port.foreign_record_best ≡ 0))
    × (port.number_foreign_records < port.max_foreign_records
        → port.foreign_record_i ≡ port.number_foreign_records)

add_at-IsTable :
    (buf : Buf) (header : MsgHeader) (port : PtpPortDs) (place : Option ℕ)
    → IsTable port
    → IsTable (add_at buf header port place)
add_at-IsTable buf header port none (hl, hn, hi, hb, hf) = ground (
  arith,
  length-set port.foreign port.foreign_record_i
      (created buf header port (record_at port.foreign port.foreign_record_i)),
  mod_next port.foreign_record_i port.max_foreign_records hi,
)
add_at-IsTable buf header port (some j) (hl, hn, hi, hb, hf) =
    (length-set port.foreign j (refreshed buf (record_at port.foreign j)) ∙ hl, hn, hi, hb, hf)

-- Adding a foreign master keeps the table of a port well-formed: its full length, the count and the
-- place of the next record in range, the best record among the counted ones (or 0), and the next
-- record right behind the last one as long as the table is not full.
pub add_foreign-IsTable :
    (buf : Buf) (header : MsgHeader) (port : PtpPortDs)
    → IsTable port
    → IsTable (add_foreign buf header port)
unfolding add_foreign
add_foreign-IsTable buf header port t =
    add_at-IsTable buf header port (known_at header.source_port_identity port) t

-- The record of a source, with what was last unpacked into it.
abbrev pub IsKnown : PortIdentity → PtpPortDs → Type 0
IsKnown source port =
    (k : ℕ) × (k < port.number_foreign_records)
    × (same_source source (source_at port.foreign k) ≡ true)

known_at-IsFound :
    (source : PortIdentity) (port : PtpPortDs)
    → IsTable port
    → IsKnown source port
    → IsFound source port.foreign port.number_foreign_records (known_at source port)
known_at-IsFound source port (hl, hn, hi, hb, hf) (k, hk, hs) =
    find_from-IsFound source port.foreign port.number_foreign_records port.number_foreign_records
      port.foreign_record_best k (ground arith) hk hs (ground arith)

known_at-IsSound :
    (source : PortIdentity) (port : PtpPortDs)
    → IsTable port
    → IsSound source port.foreign port.number_foreign_records (known_at source port)
known_at-IsSound source port (hl, hn, hi, hb, hf) =
    find_from-IsSound source port.foreign port.number_foreign_records port.number_foreign_records
      port.foreign_record_best (ground arith)

-- A known source: neither the number of records nor the place of the next one changes.
abbrev pub SameSize : PtpPortDs → PtpPortDs → Type 0
SameSize old port =
    (port.number_foreign_records ≡ old.number_foreign_records)
    × (port.foreign_record_i ≡ old.foreign_record_i)

add_at-SameSize :
    (buf : Buf) (header : MsgHeader) (port : PtpPortDs) (place : Option ℕ)
    → IsFound header.source_port_identity port.foreign port.number_foreign_records place
    → SameSize port (add_at buf header port place)
add_at-SameSize buf header port none h = absurd h
add_at-SameSize buf header port (some j) h = (refl, refl)

-- Adding a foreign master whose port identity is in one of the counted records of a well-formed
-- table changes neither the number of records nor the place of the next one: the search around the
-- table, from the best record on, finds it.
pub add_foreign-SameSize :
    (buf : Buf) (header : MsgHeader) (port : PtpPortDs)
    → IsTable port
    → IsKnown header.source_port_identity port
    → SameSize port (add_foreign buf header port)
unfolding add_foreign
add_foreign-SameSize buf header port t k =
    add_at-SameSize buf header port (known_at header.source_port_identity port)
      (known_at-IsFound header.source_port_identity port t k)

-- The record holds what the buffer says.
abbrev pub IsStored : Buf → PortIdentity → PtpPortDs → Type 0
IsStored buf source port =
    (k : ℕ) × (k < port.number_foreign_records)
    × (same_source source (source_at port.foreign k) ≡ true)
    × ((record_at port.foreign k).header ≡ msg_unpack_header buf)

stored_at :
    (buf : Buf) (source : PortIdentity) (port : PtpPortDs) (n k : ℕ) (f : ForeignMasterRecord)
    → k < n
    → k < length port.foreign
    → same_source source f.foreign_master_port_identity ≡ true
    → f.header ≡ msg_unpack_header buf
    → (k2 : ℕ) × (k2 < n)
      × (same_source source (source_at (set port.foreign k f) k2) ≡ true)
      × ((record_at (set port.foreign k f) k2).header ≡ msg_unpack_header buf)
stored_at buf source port n k f hk hl hs hh =
    let e = get_or-set_self port.foreign k f empty_record hl in
    (
      k,
      hk,
      ap (λ g. same_source source g.foreign_master_port_identity) e ∙ hs,
      ap (λ g. g.header) e ∙ hh,
    )

add_at-IsStored :
    (buf : Buf) (header : MsgHeader) (port : PtpPortDs) (place : Option ℕ)
    → IsTable port
    → IsSound header.source_port_identity port.foreign port.number_foreign_records place
    → IsStored buf header.source_port_identity (add_at buf header port place)
add_at-IsStored buf header port none (hl, hn, hi, hb, hf) h =
    stored_at buf header.source_port_identity port _ port.foreign_record_i _ (ground arith)
      (omega arith) (same_source_refl header.source_port_identity) refl
add_at-IsStored buf header port (some j) (hl, hn, hi, hb, hf) (hj, hs) =
    stored_at buf header.source_port_identity port _ j _ hj (omega arith) hs refl

-- After a foreign master is added to a well-formed table, one of the counted records has the port
-- identity of the sender and holds the header that the buffer unpacks to.
pub add_foreign-IsStored :
    (buf : Buf) (header : MsgHeader) (port : PtpPortDs)
    → IsTable port
    → IsStored buf header.source_port_identity (add_foreign buf header port)
unfolding add_foreign
add_foreign-IsStored buf header port t =
    add_at-IsStored buf header port (known_at header.source_port_identity port) t
      (known_at-IsSound header.source_port_identity port t)
