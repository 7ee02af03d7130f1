-- ===== src/Foreign/Global.antt =====
-- The choice over all ports: which ports an update reaches, and where Ebest points to.
use mathlib.Core.Path.{subst}
use ptp_noposix.Prelude.{
  ℕ, zero, suc, ◌+◌, ◌-◌, ◌<◌, ◌≤◌, ◌≡◌, ◌≢◌, refl, sym, ap, ◌∙◌, inl, inr, List, set,
  get_or-set_ne, ◌==◌, ltb, Bool, true, false, if◌then◌else◌, Bool-cases, arith,
}
use ptp_noposix.Prelude.Int.{pos}
use ptp_noposix.Datatypes.{ClockIdentity, PtpClockDs, PtpPortDs}
use ptp_noposix.Datatypes.Empty.{empty_port}
use ptp_noposix.Bmc.Best.{port_at, best_of, is_better, er_best, first_port, e_best_from, e_best}
use ptp_noposix.Foreign.{update_bests, global_best_foreign_masters_update}

update_bests-port :
    (ports : List PtpPortDs) (todo i j : ℕ) (updated : Bool)
    → j ≢ 0
    → port_at (update_bests ports todo i updated).1 j ≡ port_at ports j
unfolding update_bests
update_bests-port ports zero i j updated h = refl
update_bests-port ports (suc todo) i j updated h =
    elim (Bool-cases (port_at ports i).record_update) [
      | inl t ↦
          ap (λ b. port_at (after b).1 j) t
          ∙ (update_bests-port (set ports 0 (best i)) todo (suc i) j true h
              ∙ get_or-set_ne ports 0 j (best i) empty_port (λ e. h (sym e)))
      | inr f ↦ ap (λ b. port_at (after b).1 j) f ∙ update_bests-port ports todo (suc i) j updated h
    ]
  where
    best : ℕ → PtpPortDs
    best i = (er_best (port_at ports i).foreign (port_at ports 0)).1

    after : Bool → Bool × List PtpPortDs
    after b =
        if b
        then update_bests (set ports 0 (best i)) todo (suc i) true
        else update_bests ports todo (suc i) updated

-- The update of the best foreign masters of all ports leaves every port other than port 0 as it is,
-- its best record included, whichever ports have new records.
pub global_best_foreign_masters_update-other_ports :
    (clock : PtpClockDs) (ports : List PtpPortDs) (j : ℕ)
    → j ≢ 0
    → port_at (global_best_foreign_masters_update clock ports).1.1 j ≡ port_at ports j
unfolding global_best_foreign_masters_update
global_best_foreign_masters_update-other_ports clock ports j h =
    elim (Bool-cases (update_bests ports clock.number_ports 0 false).0) [
      | inl t ↦
          ap (λ b. port_at (result b).1.1 j) t
          ∙ update_bests-port ports clock.number_ports 0 j false h
      | inr f ↦
          ap (λ b. port_at (result b).1.1 j) f
          ∙ update_bests-port ports clock.number_ports 0 j false h
    ]
  where
    ports2 : List PtpPortDs
    ports2 = (update_bests ports clock.number_ports 0 false).1

    result : Bool → Bool × (PtpClockDs × List PtpPortDs)
    result b = if b then (true, ((e_best clock ports2).1, ports2)) else (false, (clock, ports2))

abbrev pub HasRecords : List PtpPortDs → ℕ → Type 0
HasRecords ports i = 0 < (port_at ports i).number_foreign_records

first_port-HasRecords :
    (ports : List PtpPortDs) (todo i k : ℕ)
    → i ≤ k
    → k < i + todo
    → HasRecords ports k
    → (first_port ports todo i < i + todo) × HasRecords ports (first_port ports todo i)
unfolding first_port
first_port-HasRecords ports zero i k h l r = absurd (omega arith)
first_port-HasRecords ports (suc todo) i k h l r =
    elim (Bool-cases (ltb 0 (port_at ports i).number_foreign_records)) [
      | inl t ↦ subst Good (ap pick (sym t)) (omega arith, ground arith)
      | inr f ↦
          let (lt, has) = first_port-HasRecords ports todo (suc i) k (later f) (omega arith) r in
          subst Good (ap pick (sym f)) (omega arith, has)
    ]
  where
    pick : Bool → ℕ
    pick b = if b then i else first_port ports todo (suc i)

    Good : ℕ → Type 0
    Good p = (p < i + suc todo) × HasRecords ports p

    later : ltb 0 (port_at ports i).number_foreign_records ≡ false → suc i ≤ k
    later f = ground arith

first_port-none :
    (ports : List PtpPortDs) (todo i : ℕ)
    → ((k : ℕ) → k < i + todo → (port_at ports k).number_foreign_records ≡ 0)
    → first_port ports todo i ≡ i + todo
unfolding first_port
first_port-none ports zero i h = omega arith
first_port-none ports (suc todo) i h =
    ground (arith, h i (omega arith), first_port-none ports todo (suc i) (λ k l. h k (omega arith)))

abbrev next_port : ClockIdentity → List PtpPortDs → ℕ → ℕ → ℕ
next_port r ports i ebest =
    if (port_at ports i).number_foreign_records == 0
    then ebest
    else if is_better r (best_of (port_at ports i)) (best_of (port_at ports ebest))
    then i
    else ebest

next_port-HasRecords :
    (r : ClockIdentity) (ports : List PtpPortDs) (i ebest : ℕ)
    → ebest < i
    → HasRecords ports ebest
    → (next_port r ports i ebest < suc i) × HasRecords ports (next_port r ports i ebest)
next_port-HasRecords r ports i ebest h p = ground arith

e_best_from-HasRecords :
    (r : ClockIdentity) (ports : List PtpPortDs) (todo i ebest : ℕ)
    → ebest < i
    → HasRecords ports ebest
    → (e_best_from r ports todo i ebest < i + todo)
      × HasRecords ports (e_best_from r ports todo i ebest)
unfolding e_best_from
e_best_from-HasRecords r ports zero i ebest h p = (omega arith, p)
e_best_from-HasRecords r ports (suc todo) i ebest h p =
    let (lt, has) = next_port-HasRecords r ports i ebest h p in
    let (lt2, has2) =
      e_best_from-HasRecords r ports todo (suc i) (next_port r ports i ebest) lt has in
    (omega arith, has2)

-- Where the clock says that Ebest is.
abbrev pub PointsTo : List PtpPortDs → ℕ → PtpClockDs → Type 0
PointsTo ports i clock =
    (clock.ebest ≡ pos i) × (clock.best_foreign ≡ (i, (port_at ports i).foreign_record_best))

-- If some port of the clock has foreign masters, then EBest chooses a port of the clock that has
-- some, and the clock points to the best record of that port.
pub e_best-HasRecords :
    (clock : PtpClockDs) (ports : List PtpPortDs) (k : ℕ)
    → k < clock.number_ports
    → HasRecords ports k
    → (i : ℕ) × (i < clock.number_ports)
      × HasRecords ports i
      × PointsTo ports i (e_best clock ports).1
unfolding e_best
e_best-HasRecords clock ports k l r =
    let first = first_port ports clock.number_ports 0 in
    let (lt, has) =
      first_port-HasRecords ports clock.number_ports 0 k (omega arith) (omega arith) r in
    let (lt2, has2) =
      e_best_from-HasRecords (port_at ports 0).port_identity.clock_identity ports
        (clock.number_ports - suc first) (suc first) first (omega arith) has in
    (_, ground arith, has2, (refl, refl))

ends_at :
    (r : ClockIdentity) (ports : List PtpPortDs) (first n : ℕ)
    → first ≡ n
    → e_best_from r ports (n - suc first) (suc first) first ≡ n
unfolding e_best_from
ends_at r ports first n e =
    let none_left : n - suc first ≡ 0 = omega arith in
    ap (λ todo. e_best_from r ports todo (suc first) first) none_left ∙ e

-- If no port of the clock has foreign masters, EBest sets Ebest to the number of ports, which is
-- not the index of a port and not negative, and points to the record table behind the last port.
pub e_best-none :
    (clock : PtpClockDs) (ports : List PtpPortDs)
    → ((k : ℕ) → k < clock.number_ports → (port_at ports k).number_foreign_records ≡ 0)
    → PointsTo ports clock.number_ports (e_best clock ports).1
unfolding e_best
e_best-none clock ports h =
    let first = first_port ports clock.number_ports 0 in
    let at_end : first ≡ clock.number_ports =
      first_port-none ports clock.number_ports 0 (λ k l. h k (omega arith)) ∙ (omega arith) in
    let idx : e_best_from (port_at ports 0).port_identity.clock_identity ports
          (clock.number_ports - suc first) (suc first) first
        ≡ clock.number_ports =
      ends_at _ ports first clock.number_ports at_end in
    (ap pos idx, ap (λ i. (i, (port_at ports i).foreign_record_best)) idx)
