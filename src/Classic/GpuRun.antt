-- ===== src/Classic/GpuRun.antt =====
-- What the host loop of the classic GPU search writes out.
use falcon_vanity_generator.Base.{
  ℕ, ◌+◌, ◌%◌, ◌^◌, ◌≤◌, ◌<◌, Bool, true, false, not, ◌&&◌, ◌||◌, Option, none, some, List, [], ◌∷◌,
  length, get_elem?, All, ◌≡◌, sym, ap, ◌∙◌, inl, inr, arith, leb, ◌==◌, Bool-cases, Option-cases,
  length-append, All-append,
}
use mathlib.Core.Path.{subst}
use falcon_vanity_generator.Base.Results.{ok, err, Result-cases}
use falcon_vanity_generator.Crates.{Crates}
use falcon_vanity_generator.Address.{to_address_string}
use falcon_vanity_generator.Targets.{Target, matches_display}
use falcon_vanity_generator.Targets.Set.{TargetSet, device_table, first_match_display}
use falcon_vanity_generator.Targets.Set.Claim.{claim-retire, claim-list}
use falcon_vanity_generator.Targets.Set.Found.{first_match_display-Matches}
use falcon_vanity_generator.Targets.Set.Tally.{tally, flag, tally-claim}
use falcon_vanity_generator.Cuda.{CudaC, ed_search_batch}
use falcon_vanity_generator.Classic.{
  Ed25519, address, from_seed, run_start, ClassicHit, ClassicProgress, ClassicArgs,
  classic_satisfied, classic_written, classic_emit_one, classic_emit, classic_batch, classic_loop,
}

-- The address of the seed shows the pattern of its target in `list`.
pub record IsClassicHit (x : Crates) (d : Ed25519) (list : List Target) (v : ClassicHit)
    : Type 0 where
  pub pattern : Target
  pub listed : get_elem? list v.target ≡ some pattern
  pub shown : matches_display pattern (to_address_string x (address d (from_seed v.seed))) ≡ true

-- The progress of a run from the set `start`: the counter is the number of hits written, at most
-- `--count`, each matches, and in retiring mode a target is written once, when its flag goes off.
pub record IsClassicProgress (x : Crates) (d : Ed25519) (a : ClassicArgs) (start : TargetSet)
    (p : ClassicProgress) : Type 0 where
  pub list : p.targets.list ≡ start.list
  pub retire : p.targets.retire ≡ start.retire
  pub counted : p.found ≡ length p.log
  pub within : p.found ≤ a.count
  pub matching : All (IsClassicHit x d start.list) p.log
  pub once :
      start.retire ≡ true
      → (j : ℕ) → tally (λ v. v.target) j p.log + flag p.targets j ≡ flag start j

module _ (x : Crates) (d : Ed25519) (a : ClassicArgs) (start : TargetSet)
    (small : a.count < 2 ^ 64) where
  abbrev Good : ClassicProgress → Type 0
  Good p = IsClassicProgress x d a start p

  written-Good :
      (seed : List ℕ) (ok_sig : Bool) (t : ℕ) (p : ClassicProgress)
      → Good p
      → p.found < a.count
      → first_match_display p.targets (to_address_string x (address d (from_seed seed))) ≡ some t
      → Good (classic_written p (record { seed = seed; roundtrip = ok_sig; target = t }))
  unfolding classic_written
  written-Good seed ok_sig t p g lt m =
      let found =
        first_match_display-Matches p.targets (to_address_string x (address d (from_seed seed))) t
          m in
      let v : ClassicHit = record { seed = seed; roundtrip = ok_sig; target = t } in
      record {
        list = claim-list p.targets t ∙ g.list;
        retire = claim-retire p.targets t ∙ g.retire;
        counted = omega (arith, g.counted, length-append p.log (v ∷ []));
        within = omega arith;
        matching = All-append (IsClassicHit x d start.list) p.log (v ∷ []) g.matching (
          record {
            pattern = found.target;
            listed = ap (λ l. get_elem? l t) (sym g.list) ∙ found.listed;
            shown = found.shown;
          },
          tt,
        );
        once = λ retiring j.
            tally-claim (λ v. v.target) p.targets p.log v j (flag start j) (g.retire ∙ retiring)
              found.active (g.once retiring j);
      }

  classic_emit_one-Good :
      (seed : List ℕ) (p : ClassicProgress)
      → Good p
      → p.found < a.count
      → Good (classic_emit_one x d a seed p).0
        × ((classic_emit_one x d a seed p).1 ≡ false
            → (classic_emit_one x d a seed p).0.found < a.count)
  unfolding classic_emit_one
  classic_emit_one-Good seed p g lt =
      elim (Option-cases
        (first_match_display p.targets (to_address_string x (address d (from_seed seed))))) [
          | inl missed ↦ rw (missed, classic_emit_one) (g, λ q. lt)
          | inr (t, m) ↦ elim (Bool-cases (not a.allow_sibling_hits && leb 1 p.batch_emitted)) [
            | inl sibling ↦ rw (m, classic_emit_one, sibling) (with_sibling, λ q. lt)
            | inr fresh ↦
                rw (m, classic_emit_one, fresh)
                  (
                    written-Good seed _ t p g lt m,
                    λ go_on. unfold classic_satisfied in ground arith,
                  )
          ]
        ]
    where
      with_sibling : Good (record p { siblings = (p.siblings + 1) % 2 ^ 64 })
      with_sibling = record {
        list = g.list;
        retire = g.retire;
        counted = g.counted;
        within = g.within;
        matching = g.matching;
        once = g.once;
      }

  classic_emit-Good :
      (seeds : List (List ℕ)) (p : ClassicProgress)
      → Good p
      → p.found < a.count
      → Good (classic_emit x d a seeds p)
  unfolding classic_emit
  classic_emit-Good [] p g lt = g
  classic_emit-Good (seed ∷ seeds) p g lt =
      let (g', go_on) = classic_emit_one-Good seed p g lt in
      elim (Bool-cases (classic_emit_one x d a seed p).1) [
        | inl stop ↦ rw stop g'
        | inr more ↦
            rw more (classic_emit-Good seeds (classic_emit_one x d a seed p).0 g' (go_on more))
      ]

-- The progress with which a batch starts to write hits out.
abbrev batch_start : ClassicArgs → List (List ℕ) → ClassicProgress → ClassicProgress
batch_start a seeds p = record p {
  raw_hits = (p.raw_hits + length seeds) % 2 ^ 64;
  keys_done = (p.keys_done + a.items) % 2 ^ 128;
  batch_emitted = 0;
}

classic_batch_ok :
    (x : Crates) (d : Ed25519) (g : CudaC) (a : ClassicArgs) (batch : ℕ) (o : Option (List ℕ))
    (p p' : ClassicProgress) (last : Bool)
    → classic_batch x d g a batch o p ≡ ok (p', last)
    → (seeds : List (List ℕ)) × (classic_emit x d a seeds (batch_start a seeds p) ≡ p')
      × ((classic_satisfied a p' || (not (a.batches == 0) && leb a.batches (batch + 1))) ≡ last)
unfolding classic_batch
classic_batch_ok x d g a batch none p p' last e = cc
classic_batch_ok x d g a batch (some base) p p' last e =
    elim (Option-cases (device_table p.targets)) [
      | inl broken ↦ (let q = rw (broken, classic_batch) at e in cc)
      | inr (table, built) ↦
          elim (Option-cases (ed_search_batch g base (run_start base) a.items table a.max_hits)) [
            | inl asserted ↦ (let q = rw (built, classic_batch, asserted) at e in cc)
            | inr (err error, refused) ↦ (let q = rw (built, classic_batch, refused) at e in cc)
            | inr (ok seeds, searched) ↦
                let q = rw (built, classic_batch, searched) at e in
                let ep : classic_emit x d a seeds (batch_start a seeds p) ≡ p' = cc in
                (
                  seeds,
                  ep,
                  ap
                        (λ r.
                          classic_satisfied a r
                          || (not (a.batches == 0) && leb a.batches (batch + 1)))
                        (sym ep)
                      ∙ cc,
                )
          ]
    ]

-- If `--count` fits a u64 and the run starts well with fewer hits than asked for, then it keeps to
-- its specification, whatever the device and the entropy mix return.
pub classic_loop-IsClassicProgress :
    (x : Crates) (d : Ed25519) (g : CudaC) (a : ClassicArgs) (start : TargetSet) (batch : ℕ)
    (outputs : List (Option (List ℕ))) (p : ClassicProgress)
    → a.count < 2 ^ 64
    → IsClassicProgress x d a start p
    → p.found < a.count
    → IsClassicProgress x d a start (classic_loop x d g a batch outputs p).0
unfolding classic_loop
classic_loop-IsClassicProgress x d g a start batch [] p small good lt = good
classic_loop-IsClassicProgress x d g a start batch (o ∷ os) p small good lt =
    elim (Result-cases (classic_batch x d g a batch o p)) [
      | inr (error, refused) ↦ rw (refused, classic_loop) good
      | inl ((p', last), done) ↦
          let (seeds, ended, stops) = classic_batch_ok x d g a batch o p p' last done in
          let good' : IsClassicProgress x d a start p' =
            subst (IsClassicProgress x d a start) ended (
              classic_emit-Good x d a start small seeds (batch_start a seeds p) (started seeds)
                lt) in
          elim (Bool-cases last) [
            | inl stop ↦ rw (done, classic_loop, stop) good'
            | inr more ↦
                rw (done, classic_loop, more)
                  (classic_loop-IsClassicProgress x d g a start (batch + 1) os p' small good'
                    (unfold classic_satisfied in ground arith))
          ]
    ]
  where
    started : (seeds : List (List ℕ)) → IsClassicProgress x d a start (batch_start a seeds p)
    started seeds = record {
      list = good.list;
      retire = good.retire;
      counted = good.counted;
      within = good.within;
      matching = good.matching;
      once = good.once;
    }
