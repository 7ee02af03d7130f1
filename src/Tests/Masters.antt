-- ===== src/Tests/Masters.antt =====
-- Runs of the comparison, the decision and the tables of foreign masters.
use ptp_noposix.Prelude.{
  ℕ, ◌<◌, ◌/◌, ◌≡◌, ◌≢◌, refl, ap, ◌⊎◌, inl, zero, suc, List, [], ◌∷◌, u8, true, Ordering, arith,
}
use ptp_noposix.Prelude.Int.{neg}
use ptp_noposix.Constants.{PtpState, dsc_error, a_better_then_b}
use ptp_noposix.Datatypes.{ForeignMasterRecord, PtpClockDs, PtpPortDs, ClockIdentity, MsgHeader}
use ptp_noposix.Datatypes.Empty.{empty_msg_header}
use ptp_noposix.Bmc.Compare.{memcmp, by_comp, bmc_data_set_comparison, compare_quality, DataSet}
use ptp_noposix.Bmc.Compare.Laws.{
  key, HasOctets, comparison_opposite, comparison-key, comparison-variance,
}
use ptp_noposix.Bmc.Decision.{data_set, bmc, bmc_state_decision, decide_other}
use ptp_noposix.Bmc.Update.{s1, copy_d0}
use ptp_noposix.Bmc.Decision.Laws.{
  HasRole, Takes, Leaves, IsPrimary, KeepsParent, state_of, clock_of, bmc_role, bmc_parent,
  bmc-IsPrimary_unique, bmc-primary_class,
}
use ptp_noposix.Bmc.Best.{record_at, port_at, er_best, e_best}
use ptp_noposix.Bmc.Best.Laws.{IsComparable, key_at, er_best-key}
use ptp_noposix.Foreign.{add_foreign, global_best_foreign_masters_update, same_source}
use ptp_noposix.Foreign.Laws.{
  IsTable, IsKnown, SameSize, IsStored, add_foreign-IsTable, add_foreign-SameSize,
  add_foreign-IsStored,
}
use ptp_noposix.Foreign.Global.{
  HasRecords, PointsTo, global_best_foreign_masters_update-other_ports, e_best-HasRecords,
  e_best-none,
}
use ptp_noposix.Tests.Samples.{
  blank, identity_of, source_of, quality_of, master_of, sample_clock, port_of_number, full_port,
  best_master,
}

abbrev first_set : DataSet
first_set = data_set (master_of 1 128 0xC000 1)

abbrev second_set : DataSet
second_set = data_set (master_of 2 128 0xC001 1)

comparison_opposite_example :
    bmc_data_set_comparison second_set first_set (identity_of 8)
    ≡ neg (bmc_data_set_comparison first_set second_set (identity_of 8))
comparison_opposite_example = comparison_opposite first_set second_set (identity_of 8)

octet_differs : (a b : ClockIdentity) → a.o7 ≢ b.o7 → a ≢ b
octet_differs a b h e = h (ap (λ c. c.o7) e)

comparison-key_example :
    (bmc_data_set_comparison first_set second_set (identity_of 8)
      ≡ by_comp (memcmp (key first_set.announce) (key second_set.announce)))
    × (bmc_data_set_comparison first_set second_set (identity_of 8) ≢ dsc_error)
comparison-key_example =
    comparison-key first_set second_set (identity_of 8) (omega arith) (omega arith)
      (octet_differs (identity_of 1) (identity_of 2) (omega arith))
      (omega arith, omega arith, omega arith, omega arith)
      (omega arith, omega arith, omega arith, omega arith) refl

-- Of 0x01FF and 0x0200 the greater one wins, since only the lowest octets are compared.
comparison-variance_example :
    bmc_data_set_comparison
      (data_set (master_of 1 128 0x0200 1))
      (data_set (master_of 2 128 0x01FF 1))
      (identity_of 8)
    ≡ a_better_then_b
comparison-variance_example =
    comparison-variance (data_set (master_of 1 128 0x0200 1)) (data_set (master_of 2 128 0x01FF 1))
      (identity_of 8) (omega arith) (omega arith)
      (octet_differs (identity_of 1) (identity_of 2) (omega arith)) refl refl refl (omega arith)

bmc_role_example : HasRole (full_port 1) (bmc best_master best_master sample_clock (full_port 1))
bmc_role_example = bmc_role best_master best_master sample_clock (full_port 1)

bmc_parent_example :
    Takes best_master best_master
      (full_port 1)
      (bmc best_master best_master sample_clock (full_port 1))
    ⊎ Leaves sample_clock (bmc best_master best_master sample_clock (full_port 1))
bmc_parent_example = bmc_parent best_master best_master sample_clock (full_port 1)

-- Port 1 has heard the best master of the clock and becomes the primary slave.
port_1-IsPrimary : IsPrimary (bmc best_master best_master sample_clock (full_port 1))
unfolding bmc bmc_state_decision decide_other bmc_data_set_comparison compare_quality memcmp s1
    copy_d0
port_1-IsPrimary = (refl, refl)

bmc-IsPrimary_unique_example :
    ¬ (IsPrimary (bmc (master_of 3 100 0xC001 2) best_master sample_clock (full_port 2)))
bmc-IsPrimary_unique_example =
    bmc-IsPrimary_unique best_master (master_of 3 100 0xC001 2) best_master sample_clock
      sample_clock (full_port 1) (full_port 2) (omega arith) (omega arith) (omega arith)
      port_1-IsPrimary

abbrev primary_clock : PtpClockDs
primary_clock = record sample_clock { clock_quality = record (quality_of 0) { clock_class = 6 } }

bmc-primary_class_example :
    (state_of (bmc best_master best_master primary_clock (full_port 1)) ≢ PtpState.slave)
    × KeepsParent primary_clock (clock_of (bmc best_master best_master primary_clock (full_port 1)))
bmc-primary_class_example =
    bmc-primary_class best_master best_master primary_clock (full_port 1) (omega arith)
      (omega arith)

abbrev two_masters : List ForeignMasterRecord
two_masters = master_of 1 128 0xC000 1 ∷ master_of 2 100 0xC001 1 ∷ []

master-received :
    (j : ℕ)
    → j < 2
    → ((record_at two_masters j).reception_port_number ≢ 0)
      × HasOctets (record_at two_masters j).announce
master-received zero h = (omega arith, (omega arith, omega arith, omega arith, omega arith))
master-received (suc zero) h = (omega arith, (omega arith, omega arith, omega arith, omega arith))
master-received (suc (suc j)) h = absurd (omega arith)

two_masters-IsComparable : IsComparable two_masters 2
two_masters-IsComparable = (master-received, λ j k. apart j k)
  where
    apart :
        (j k : ℕ)
        → j < 2
        → k < 2
        → j ≢ k
        → ((record_at two_masters j).announce.grandmaster_identity
            ≢ (record_at two_masters k).announce.grandmaster_identity)
          × ((record_at two_masters j).announce.grandmaster_clock_quality.offset_scaled_log_variance
                / 256
              ≡ (record_at two_masters
                  k).announce.grandmaster_clock_quality.offset_scaled_log_variance
                / 256)
    apart zero zero hj hk ne = absurd (ne refl)
    apart zero (suc zero) hj hk ne =
        (octet_differs (identity_of 1) (identity_of 2) (omega arith), refl)
    apart (suc zero) zero hj hk ne =
        (octet_differs (identity_of 2) (identity_of 1) (omega arith), refl)
    apart (suc zero) (suc zero) hj hk ne = absurd (ne refl)
    apart zero (suc (suc k)) hj hk ne = absurd (omega arith)
    apart (suc zero) (suc (suc k)) hj hk ne = absurd (omega arith)
    apart (suc (suc j)) k hj hk ne = absurd (omega arith)

er_best-key_example :
    let best = (er_best two_masters (full_port 1)).1.foreign_record_best in
    (best < 2)
    × ((er_best two_masters (full_port 1)).0 ≡ u8 best)
    × ((0 ≡ best) ⊎ (memcmp (key_at two_masters best) (key_at two_masters 0) ≡ Ordering.lt))
er_best-key_example = er_best-key two_masters (full_port 1) 0 two_masters-IsComparable (omega arith)

abbrev header_of : ℕ → MsgHeader
header_of n = record empty_msg_header { source_port_identity = source_of n }

full_port-IsTable : IsTable (full_port 1)
full_port-IsTable = (refl, omega arith, omega arith, inl (omega arith), λ h. absurd (omega arith))

add_foreign-IsTable_example : IsTable (add_foreign blank (header_of 5) (full_port 1))
add_foreign-IsTable_example =
    add_foreign-IsTable blank (header_of 5) (full_port 1) full_port-IsTable

second-IsKnown : IsKnown (source_of 2) (full_port 1)
unfolding same_source memcmp
second-IsKnown = (1, omega arith, refl)

add_foreign-SameSize_example :
    SameSize (full_port 1) (add_foreign blank (header_of 2) (full_port 1))
add_foreign-SameSize_example =
    add_foreign-SameSize blank (header_of 2) (full_port 1) full_port-IsTable second-IsKnown

add_foreign-IsStored_example :
    IsStored blank (source_of 5) (add_foreign blank (header_of 5) (full_port 1))
add_foreign-IsStored_example =
    add_foreign-IsStored blank (header_of 5) (full_port 1) full_port-IsTable

abbrev both : List PtpPortDs
both =
    record (full_port 1) { record_update = true }
    ∷ record (full_port 2) { record_update = true }
    ∷ []

global_best_foreign_masters_update-other_ports_example :
    port_at (global_best_foreign_masters_update sample_clock both).1.1 1
    ≡ record (full_port 2) { record_update = true }
global_best_foreign_masters_update-other_ports_example =
    global_best_foreign_masters_update-other_ports sample_clock both 1 (omega arith)

e_best-HasRecords_example :
    (i : ℕ) × (i < 2) × HasRecords both i × PointsTo both i (e_best sample_clock both).1
e_best-HasRecords_example = e_best-HasRecords sample_clock both 1 (omega arith) (omega arith)

abbrev silent : List PtpPortDs
silent = port_of_number 1 ∷ port_of_number 2 ∷ []

silent-HasNone : (k : ℕ) → k < 2 → (port_at silent k).number_foreign_records ≡ 0
silent-HasNone zero h = refl
silent-HasNone (suc zero) h = refl
silent-HasNone (suc (suc k)) h = absurd (omega arith)

e_best-none_example : PointsTo silent 2 (e_best sample_clock silent).1
e_best-none_example = e_best-none sample_clock silent silent-HasNone
