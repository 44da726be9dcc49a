-- ===== src/Gpu/Emit.antt =====
-- What the host loop writes out, over the batches of a run.
use falcon_vanity_generator.Base.{
  ℕ, ◌+◌, ◌%◌, ◌^◌, ◌≤◌, ◌<◌, true, false, not, ◌&&◌, List, [], ◌∷◌, map, length, All, ◌≡◌, ◌∙◌,
  inl, inr, arith, leb, Bool-cases, Option-cases, length-append, All-append,
}
use mathlib.Core.Path.{subst}
use falcon_vanity_generator.Crates.{Crates}
use falcon_vanity_generator.Falcon.{FalconC}
use falcon_vanity_generator.Targets.Set.{TargetSet, is_active}
use falcon_vanity_generator.Targets.Set.Claim.{claim-retire, claim-list}
use falcon_vanity_generator.Targets.Set.Tally.{tally, flag, tally-claim}
use falcon_vanity_generator.Cuda.{RawHit}
use falcon_vanity_generator.Gpu.{
  VerifiedHit, Progress, GpuArgs, GpuRun, written, satisfied, emit_one, emit_hits, verify_one,
  survivors, finished, running, failed,
}
use falcon_vanity_generator.Gpu.Verify.{IsVerified, verify_one-IsVerified}

-- The progress of a run from the set `start`: the counter is the number of hits written, at most
-- `--count`, each is verified, and in retiring mode a target is written once, when its flag goes off.
pub record IsProgress (x : Crates) (c : FalconC) (a : GpuArgs) (start : TargetSet) (p : Progress)
    : Type 0 where
  pub list : p.targets.list ≡ start.list
  pub retire : p.targets.retire ≡ start.retire
  pub counted : p.found ≡ length p.log
  pub within : p.found ≤ a.count
  pub verified : All (IsVerified x c start.list a.canonical_only) p.log
  pub once :
      start.retire ≡ true
      → (j : ℕ) → tally (λ v. v.target) j p.log + flag p.targets j ≡ flag start j

-- What a run has made of its progress, whatever way it stands.
abbrev pub reached : GpuRun → Progress
reached (finished p) = p
reached (running p) = p
reached (failed e p) = p

module _ (x : Crates) (c : FalconC) (a : GpuArgs) (start : TargetSet)
    (small : a.count < 2 ^ 64) where
  abbrev pub Good : Progress → Type 0
  Good p = IsProgress x c a start p

  written-Good :
      (v : VerifiedHit) (p : Progress)
      → Good p
      → p.found < a.count
      → is_active p.targets v.target ≡ true
      → IsVerified x c start.list a.canonical_only v
      → Good (written p v)
  unfolding written
  written-Good v p g lt on ok_v = record {
    list = claim-list p.targets v.target ∙ g.list;
    retire = claim-retire p.targets v.target ∙ g.retire;
    counted = omega (arith, g.counted, length-append p.log (v ∷ []));
    within = omega arith;
    verified =
        All-append (IsVerified x c start.list a.canonical_only) p.log (v ∷ []) g.verified
          (ok_v, tt);
    once = λ retiring j.
        tally-claim (λ v. v.target) p.targets p.log v j (flag start j) (g.retire ∙ retiring) on
          (g.once retiring j);
  }

  emit_one-Good :
      (v : VerifiedHit) (p : Progress)
      → Good p
      → p.found < a.count
      → IsVerified x c start.list a.canonical_only v
      → Good (emit_one a v p).0 × ((emit_one a v p).1 ≡ false → (emit_one a v p).0.found < a.count)
  unfolding emit_one
  emit_one-Good v p g lt ok_v = elim (Bool-cases (is_active p.targets v.target)) [
    | inr off ↦ rw off (g, λ q. lt)
    | inl on ↦ elim (Bool-cases (not a.allow_sibling_hits && leb 1 p.batch_emitted)) [
      | inl sibling ↦ rw (on, sibling) (with_sibling, λ q. lt)
      | inr fresh ↦
          rw (on, fresh) (written-Good v p g lt on ok_v, λ go_on. unfold satisfied in ground arith)
    ]
  ]
    where
      with_sibling : Good (record p { siblings_discarded = (p.siblings_discarded + 1) % 2 ^ 64 })
      with_sibling = record {
        list = g.list;
        retire = g.retire;
        counted = g.counted;
        within = g.within;
        verified = g.verified;
        once = g.once;
      }

  pub emit_hits-Good :
      (vs : List VerifiedHit) (p : Progress)
      → Good p
      → p.found < a.count
      → All (IsVerified x c start.list a.canonical_only) vs
      → Good (emit_hits a vs p)
  unfolding emit_hits
  emit_hits-Good [] p g lt ok_vs = g
  emit_hits-Good (v ∷ vs) p g lt ok_vs =
      let (g', go_on) = emit_one-Good v p g lt ok_vs.0 in
      elim (Bool-cases (emit_one a v p).1) [
        | inl stop ↦ rw stop g'
        | inr more ↦ rw more (emit_hits-Good vs (emit_one a v p).0 g' (go_on more) ok_vs.1)
      ]

  pub survivors-IsVerified :
      (s : TargetSet) (hits : List RawHit)
      → s.list ≡ start.list
      → All
          (IsVerified x c start.list a.canonical_only)
          (survivors (map (verify_one x c s a.canonical_only) hits))
  unfolding survivors
  survivors-IsVerified s [] same = tt
  survivors-IsVerified s (h ∷ hs) same = elim (Option-cases (verify_one x c s a.canonical_only h)) [
    | inl culled ↦ rw culled (survivors-IsVerified s hs same)
    | inr (v, ok_v) ↦ rw ok_v (
      subst (λ l. IsVerified x c l a.canonical_only v) same
          (verify_one-IsVerified x c s a.canonical_only h v ok_v),
      survivors-IsVerified s hs same,
    )
  ]
