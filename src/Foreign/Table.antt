-- ===== src/Foreign/Table.antt =====
-- ErBest (PTPWRd/bmc.c) and clearForeignMasters (PTPWRd/protocol.c) on the table of a port.
use ptp_noposix.Prelude.{
  ℕ, zero, suc, ◌+◌, ◌-◌, ◌<◌, ◌≡◌, refl, ap, ◌∙◌, inr, List, [], ◌∷◌, length, if◌then◌else◌, arith,
}
use ptp_noposix.Datatypes.{ClockIdentity, ForeignMasterRecord, PtpPortDs}
use ptp_noposix.Bmc.Best.{record_at, is_better, er_best_from, er_best}
use ptp_noposix.Foreign.{clear_records, clear_foreign_masters}
use ptp_noposix.Foreign.Laws.{IsTable}

length-clear_records :
    (n : ℕ) (table : List ForeignMasterRecord) → length (clear_records n table) ≡ length table
unfolding clear_records
length-clear_records zero table = refl
length-clear_records (suc n) [] = refl
length-clear_records (suc n) (f ∷ table) = ap suc (length-clear_records n table)

er_best_from-lt :
    (r : ClockIdentity) (table : List ForeignMasterRecord) (todo i best : ℕ)
    → best < i
    → er_best_from r table todo i best < i + todo
unfolding er_best_from
er_best_from-lt r table zero i best h = omega arith
er_best_from-lt r table (suc todo) i best h =
    omega (arith, er_best_from-lt r table todo (suc i) next (ground arith))
  where
    next : ℕ
    next = if is_better r (record_at table i) (record_at table best) then i else best

-- ErBest, given the table of its port, keeps that table well-formed: the best record that it
-- remembers is one of the counted ones, or 0 if there are none.
pub er_best-IsTable : (port : PtpPortDs) → IsTable port → IsTable (er_best port.foreign port).1
unfolding er_best
er_best-IsTable port (hl, hn, hi, hb, hf) = ground (
  arith,
  er_best_from-lt port.port_identity.clock_identity port.foreign (port.number_foreign_records - 1) 1
      0,
)

-- Clearing the foreign masters of a port with a well-formed table leaves a well-formed table.
clear_foreign_masters-IsTable :
    (port : PtpPortDs) → IsTable port → IsTable (clear_foreign_masters port)
unfolding clear_foreign_masters
clear_foreign_masters-IsTable port (hl, hn, hi, hb, hf) = (
  length-clear_records port.number_foreign_records port.foreign ∙ hl,
  omega arith,
  omega arith,
  inr refl,
  λ h. refl,
)
