-- ===== src/Foreign/Search.antt =====
-- Lemmas on the search of addForeign (PTPWRd/protocol.c) around the table of foreign masters.
use mathlib.Core.Path.{subst}
use mathlib.Core.Bool.{true≢false}
use native.Mathlib.Nat.{mod-eq_of_lt, mod_self, mod-lt}
use ptp_noposix.Prelude.{
  ℕ, zero, suc, ◌+◌, ◌%◌, ◌<◌, ◌≤◌, ◌≡◌, ◌≢◌, sym, ap, ◌∙◌, ◌⊎◌, inl, inr, List, true, false,
  if◌then◌else◌, Bool-cases, Option, none, some, arith,
}
use ptp_noposix.Datatypes.{octets, PortIdentity, ForeignMasterRecord}
use ptp_noposix.Bmc.Compare.Laws.{memcmp_refl}
use ptp_noposix.Bmc.Best.{record_at}
use ptp_noposix.Foreign.{same_source, find_from}

pub mod_next :
    (i max : ℕ)
    → i < max
    → ((i + 1 < max) × ((i + 1) % max ≡ i + 1)) ⊎ ((i + 1 ≡ max) × ((i + 1) % max ≡ 0))
mod_next i max h = elim (split i max h) [
  | inl lt ↦ inl (lt, mod-eq_of_lt lt)
  | inr e ↦ inr (e, ap (λ k. k % max) e ∙ mod_self max)
]
  where
    split : (i max : ℕ) → i < max → (i + 1 < max) ⊎ (i + 1 ≡ max)
    split i max h = ground arith

pub same_source_refl : (a : PortIdentity) → same_source a a ≡ true
unfolding same_source
same_source_refl a = ground (arith, memcmp_refl (octets a.clock_identity))

abbrev pub source_at : List ForeignMasterRecord → ℕ → PortIdentity
source_at table j = (record_at table j).foreign_master_port_identity

abbrev pub IsFound : PortIdentity → List ForeignMasterRecord → ℕ → Option ℕ → Type 0
IsFound source table n (some j) = (j < n) × (same_source source (source_at table j) ≡ true)
IsFound source table n none = ⊥

-- How far record `k` is from record `j`, around `n` records.
abbrev WithinReach : (n todo j k : ℕ) → Type 0
WithinReach n todo j k = ((j ≤ k) × (k < j + todo)) ⊎ ((k < j) × (k + n < j + todo))

reach_next :
    (n todo j k : ℕ)
    → j < n
    → k < n
    → j ≢ k
    → WithinReach n (suc todo) j k
    → ((j + 1) % n < n) × WithinReach n todo ((j + 1) % n) k
reach_next n todo j k hj hk ne r = ground (arith, mod_next j n hj)

pub find_from-IsFound :
    (source : PortIdentity) (table : List ForeignMasterRecord) (n todo j k : ℕ)
    → j < n
    → k < n
    → same_source source (source_at table k) ≡ true
    → WithinReach n todo j k
    → IsFound source table n (find_from source table n todo j)
unfolding find_from
find_from-IsFound source table n zero j k hj hk hs r = absurd (ground arith)
find_from-IsFound source table n (suc todo) j k hj hk hs r =
    elim (Bool-cases (same_source source (source_at table j))) [
      | inl t ↦ subst (λ b. IsFound source table n (if b then some j else rest)) (sym t) (hj, t)
      | inr f ↦
          let (next, r2) = reach_next n todo j k hj hk (apart f) r in
          subst (λ b. IsFound source table n (if b then some j else rest)) (sym f)
            (find_from-IsFound source table n todo ((j + 1) % n) k next hk hs r2)
    ]
  where
    rest : Option ℕ
    rest = find_from source table n todo ((j + 1) % n)

    apart : same_source source (source_at table j) ≡ false → j ≢ k
    apart f e =
        absurd (true≢false (sym hs ∙ sym (ap (λ i. same_source source (source_at table i)) e) ∙ f))

abbrev pub IsSound : PortIdentity → List ForeignMasterRecord → ℕ → Option ℕ → Type 0
IsSound source table n (some j) = (j < n) × (same_source source (source_at table j) ≡ true)
IsSound source table n none = Unit

pub find_from-IsSound :
    (source : PortIdentity) (table : List ForeignMasterRecord) (n todo j : ℕ)
    → (j < n) ⊎ (todo ≡ 0)
    → IsSound source table n (find_from source table n todo j)
unfolding find_from
find_from-IsSound source table n zero j h = tt
find_from-IsSound source table n (suc todo) j h =
    elim (Bool-cases (same_source source (source_at table j))) [
      | inl t ↦ subst (λ b. IsSound source table n (if b then some j else rest)) (sym t) (hj, t)
      | inr f ↦
          subst (λ b. IsSound source table n (if b then some j else rest)) (sym f)
            (find_from-IsSound source table n todo ((j + 1) % n) (inl (mod-lt _ (omega arith))))
    ]
  where
    rest : Option ℕ
    rest = find_from source table n todo ((j + 1) % n)

    hj : j < n
    hj = ground arith
