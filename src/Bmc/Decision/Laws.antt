-- ===== src/Bmc/Decision/Laws.antt =====
-- What the recommended state says of the data sets that the decision leaves.
use mathlib.Core.Path.{subst}
use ptp_noposix.Prelude.{ℕ, ◌+◌, ◌<◌, ◌≡◌, ◌≢◌, sym, ◌⊎◌, inl, inr, true, u16, arith}
use ptp_noposix.Constants.{PtpState, wr_s_only, non_slave, primary_slave, secondary_slave}
use ptp_noposix.Datatypes.{ForeignMasterRecord, PtpClockDs, PtpPortDs}
use ptp_noposix.Bmc.Update.{m1, m3, p1, s1, s2}
use ptp_noposix.Bmc.Decision.{
  Outcome, is_master, decide_primary, decide_other, bmc_state_decision, bmc, copied,
}

abbrev pub state_of : Outcome → PtpState
state_of (state, clock, port) = state

abbrev pub clock_of : Outcome → PtpClockDs
clock_of (state, clock, port) = clock

abbrev pub port_of : Outcome → PtpPortDs
port_of (state, clock, port) = port

-- The role that goes with a state; `old` is the role before the decision.
abbrev pub Fits : (old role : ℕ) → PtpState → Type 0
Fits old role PtpState.slave = (role ≡ primary_slave) ⊎ (role ≡ secondary_slave)
Fits old role PtpState.master = role ≡ non_slave
Fits old role PtpState.passive = (role ≡ non_slave) ⊎ (role ≡ old)
Fits old role PtpState.listening = role ≡ old
Fits old role _ = ⊥

abbrev pub HasRole : PtpPortDs → Outcome → Type 0
HasRole port o = Fits port.wr_slave_role (port_of o).wr_slave_role (state_of o)

primary_role :
    (erbest : ForeignMasterRecord) (clock : PtpClockDs) (port : PtpPortDs)
    → HasRole port (decide_primary erbest clock port)
unfolding decide_primary m1 p1
primary_role erbest clock port = ground arith

other_role :
    (erbest best_foreign : ForeignMasterRecord) (clock : PtpClockDs) (port : PtpPortDs)
    → HasRole port (decide_other erbest best_foreign clock port)
unfolding decide_other m1 m3 s1 s2
other_role erbest best_foreign clock port = ground arith

decision_role :
    (erbest best_foreign : ForeignMasterRecord) (clock : PtpClockDs) (port : PtpPortDs)
    → HasRole port (bmc_state_decision erbest best_foreign clock port)
unfolding bmc_state_decision m1 s1
decision_role erbest best_foreign clock port = ground (
  arith,
  primary_role erbest clock (copied clock port),
  other_role erbest best_foreign clock (copied clock port),
)

master_state : (s : PtpState) → is_master s ≡ true → s ≡ PtpState.master
master_state s h = ground arith

Fits-master :
    (old role : ℕ) (s : PtpState) → is_master s ≡ true → role ≡ non_slave → Fits old role s
Fits-master old role s h e = subst (Fits old role) (sym (master_state s h)) e

-- Whatever the algorithm recommends, the role of the port fits it: a slave is a primary or a
-- secondary slave, a master is no slave, a passive port is no slave or keeps its role, a listening
-- port keeps its role; no other state is recommended.
pub bmc_role :
    (erbest best_foreign : ForeignMasterRecord) (clock : PtpClockDs) (port : PtpPortDs)
    → HasRole port (bmc erbest best_foreign clock port)
unfolding bmc m1
bmc_role erbest best_foreign clock port = ground (
  arith,
  decision_role erbest best_foreign clock port,
  Fits-master port.wr_slave_role non_slave port.port_state,
)

abbrev pub IsPrimary : Outcome → Type 0
IsPrimary o = (state_of o ≡ PtpState.slave) × ((port_of o).wr_slave_role ≡ primary_slave)

-- The clock follows the record: Table 16 of the standard, without the flags.
abbrev pub Follows : PtpClockDs → ForeignMasterRecord → PtpPortDs → Type 0
Follows clock erbest port =
    (clock.parent_port_identity ≡ erbest.header.source_port_identity)
    × (clock.grandmaster_identity ≡ erbest.announce.grandmaster_identity)
    × (clock.steps_removed ≡ u16 (erbest.announce.steps_removed + 1))
    × (clock.primary_slave_port_number ≡ port.port_identity.port_number)

abbrev pub KeepsParent : PtpClockDs → PtpClockDs → Type 0
KeepsParent old clock =
    (clock.parent_port_identity ≡ old.parent_port_identity)
    × (clock.grandmaster_identity ≡ old.grandmaster_identity)
    × (clock.steps_removed ≡ old.steps_removed)

primary_clock :
    (erbest : ForeignMasterRecord) (clock : PtpClockDs) (port : PtpPortDs)
    → KeepsParent clock (clock_of (decide_primary erbest clock port))
      × (state_of (decide_primary erbest clock port) ≢ PtpState.slave)
unfolding decide_primary m1
primary_clock erbest clock port = ground arith

-- The decision where Ebest is heard, as a port becomes the primary slave.
abbrev pub Takes : ForeignMasterRecord → ForeignMasterRecord → PtpPortDs → Outcome → Type 0
Takes erbest best_foreign port o =
    IsPrimary o
    × Follows (clock_of o) erbest port
    × ((port.wr_config ≡ wr_s_only)
        ⊎ (best_foreign.reception_port_number ≡ port.port_identity.port_number))

abbrev pub Leaves : PtpClockDs → Outcome → Type 0
Leaves clock o = KeepsParent clock (clock_of o) × ¬ (IsPrimary o)

other_clock :
    (erbest best_foreign : ForeignMasterRecord) (clock : PtpClockDs) (port : PtpPortDs)
    → Takes erbest best_foreign port (decide_other erbest best_foreign clock port)
      ⊎ Leaves clock (decide_other erbest best_foreign clock port)
unfolding decide_other m1 m3 s1 s2
other_clock erbest best_foreign clock port = ground arith

decision_clock :
    (erbest best_foreign : ForeignMasterRecord) (clock : PtpClockDs) (port : PtpPortDs)
    → Takes erbest best_foreign port (bmc_state_decision erbest best_foreign clock port)
      ⊎ Leaves clock (bmc_state_decision erbest best_foreign clock port)
unfolding bmc_state_decision m1 s1
decision_clock erbest best_foreign clock port = ground (
  arith,
  primary_clock erbest clock (copied clock port),
  other_clock erbest best_foreign clock (copied clock port),
)

-- The algorithm either makes the port the primary slave, and then parent, grandmaster, steps and
-- primary port of the clock are those of the best record of the port (with one step more), and the
-- port is configured as slave only or is the one on which Ebest was received; or it leaves parent,
-- grandmaster and steps of the clock as they were, and the port is no primary slave.
pub bmc_parent :
    (erbest best_foreign : ForeignMasterRecord) (clock : PtpClockDs) (port : PtpPortDs)
    → Takes erbest best_foreign port (bmc erbest best_foreign clock port)
      ⊎ Leaves clock (bmc erbest best_foreign clock port)
unfolding bmc m1
bmc_parent erbest best_foreign clock port =
    ground (arith, decision_clock erbest best_foreign clock port)

-- Two ports with different port numbers, neither configured as slave only, that are decided with
-- the same Ebest: if the algorithm makes the first one the primary slave, it does not make the
-- second one the primary slave, whatever their own best records and the states of the clock are.
pub bmc-IsPrimary_unique :
    (er1 er2 best_foreign : ForeignMasterRecord) (c1 c2 : PtpClockDs) (p q : PtpPortDs)
    → p.port_identity.port_number ≢ q.port_identity.port_number
    → p.wr_config ≢ wr_s_only
    → q.wr_config ≢ wr_s_only
    → IsPrimary (bmc er1 best_foreign c1 p)
    → ¬ (IsPrimary (bmc er2 best_foreign c2 q))
bmc-IsPrimary_unique er1 er2 best_foreign c1 c2 p q ne hp hq ip iq =
    elim (bmc_parent er1 best_foreign c1 p) [
      | inr (k, other) ↦ other ip
      | inl (i, f, wp) ↦ elim (bmc_parent er2 best_foreign c2 q) [
        | inr (k2, other) ↦ other iq
        | inl (i', f', wq) ↦ absurd (ground arith)
      ]
    ]

-- If the class of the clock is below 128 and the port is not configured as slave only, the
-- algorithm does not recommend the slave state and leaves parent, grandmaster and steps of the
-- clock as they were.
pub bmc-primary_class :
    (erbest best_foreign : ForeignMasterRecord) (clock : PtpClockDs) (port : PtpPortDs)
    → clock.clock_quality.clock_class < 128
    → port.wr_config ≢ wr_s_only
    → (state_of (bmc erbest best_foreign clock port) ≢ PtpState.slave)
      × KeepsParent clock (clock_of (bmc erbest best_foreign clock port))
unfolding bmc bmc_state_decision m1
bmc-primary_class erbest best_foreign clock port h hs =
    ground (arith, primary_clock erbest clock (copied clock port))
