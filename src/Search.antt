-- ===== src/Search.antt =====
-- crates/pq-vanity/src/search.rs: the CPU search for f1 accounts. `attempt` is one round of the loop
-- of `worker` up to `record_hit`.
pub mod Sound
pub mod Counts
pub mod Worker
pub mod Protocol
use falcon_vanity_generator.Base.{
  ℕ, zero, suc, ◌+◌, ◌-◌, ◌*◌, ◌/◌, ◌%◌, ◌^◌, ◌≤◌, ◌<◌, bit_and, bit_or, bit_xor, Bool, true, false,
  not, ◌&&◌, ◌||◌, Option, none, some, List, [], ◌∷◌, ◌++◌, map, append-nil, append_assoc, String,
  codes, length, take, drop, get_elem?, get_or, set, replicate, All, ◌≡◌, refl, sym, ap, ap₂, ◌∙◌,
  ◌≢◌, ◌↔◌, ◌⊎◌, inl, inr, arith, ltb, leb, ◌==◌, if◌then◌else◌, ltb→lt, leb→le, Bool-cases,
  Option-cases, ◌>>=◌, is_some, length-append, take-append-drop, length-take, length-drop, take_all,
  take-take, take-append_le, take-append_self, drop-append_le, drop-append_self, drop-drop,
  length-replicate, All-append, All-take, All-drop, length-map, take-map, drop-map,
  get_or-get_elem?, starts_with, ends_with, list_eq, list_eq_iff, starts_with_iff, ends_with_iff,
  ends_with-nil, ==_iff, Bool_ext,
}
use mathlib.Core.Option
use falcon_vanity_generator.Base.Results.{ok, err}
use falcon_vanity_generator.Crates.{Crates}
use falcon_vanity_generator.Falcon.{FalconC, Keypair, keygen_from_seed}
use falcon_vanity_generator.Address.{
  Address, keygen_seed_from_entropy, pq_address, is_pq_compliant, canonical_pq_salt,
}
use falcon_vanity_generator.Targets.Set.{TargetSet, first_match}

-- The arguments of `record_hit`.
pub record Hit : Type 0 where
  pub entropy : List ℕ
  pub salt : ℕ
  pub addr : Address
  pub kp : Keypair
  pub target : ℕ

-- What one round adds to the counters, and the hit that it records.
pub record Attempt : Type 0 where
  pub keys : ℕ
  pub addrs : ℕ
  pub hit : Option Hit

module _ (x : Crates) (c : FalconC) where
  -- The target flags are read at every salt, and other threads may turn them off in between:
  -- `seen salt` is the set as it is read there.
  unfoldable pub sweep : (ℕ → TargetSet) → List ℕ → Keypair → ℕ → ℕ → Attempt
  sweep seen entropy kp zero salt = record { keys = 1; addrs = 0; hit = none }
  sweep seen entropy kp (suc left) salt =
      let s = salt % 2 ^ 8 in
      let addr = pq_address x s kp.public_key in
      let rest = sweep seen entropy kp left (salt + 1) in
      let next = record rest { addrs = suc rest.addrs } in
      elim (first_match x (seen salt) addr) [
        | none ↦ next
        | some t ↦
            if is_pq_compliant x addr
            then record {
              keys = 1;
              addrs = 1;
              hit = some (record { entropy = entropy; salt = s; addr = addr; kp = kp; target = t });
            }
            else next
      ]

  unfoldable pub canonical_attempt : (ℕ → TargetSet) → List ℕ → Keypair → Attempt
  canonical_attempt seen entropy kp = elim (canonical_pq_salt x kp.public_key) [
    | none ↦ record { keys = 1; addrs = 0; hit = none }
    | some (salt, addr) ↦ record {
      keys = 1;
      addrs = 1;
      hit =
          Option.map
            (λ t. record { entropy = entropy; salt = salt; addr = addr; kp = kp; target = t })
            (first_match x (seen salt) addr);
    }
  ]

  -- `max_salt` is a u16 and the sweep is `0..=max_salt`.
  unfoldable pub attempt : (ℕ → TargetSet) → Bool → ℕ → List ℕ → Attempt
  attempt seen canonical_only max_salt entropy =
      elim (keygen_from_seed c (keygen_seed_from_entropy x entropy)) [
        | err _ ↦ record { keys = 0; addrs = 0; hit = none }
        | ok kp ↦
            if canonical_only
            then canonical_attempt seen entropy kp
            else sweep seen entropy kp (max_salt + 1) 0
      ]
