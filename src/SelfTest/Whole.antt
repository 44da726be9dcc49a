-- ===== src/SelfTest/Whole.antt =====
-- `selftest_matcher`, and both self-tests as far as they are modelled.
use falcon_vanity_generator.Base.{
  ℕ, ◌+◌, ◌-◌, ◌*◌, ◌%◌, Bool, true, false, not, ◌&&◌, ◌||◌, none, some, List, [], ◌∷◌, ◌++◌, map,
  codes, length, take, drop, get_or, set, replicate, leb, ◌==◌, if◌then◌else◌, ◌>>=◌, is_some,
  list_eq,
}
use falcon_vanity_generator.Base.Results.{Result, ok, err, bind, map_err}
use falcon_vanity_generator.Crates.{Crates}
use falcon_vanity_generator.Falcon.{FalconC}
use falcon_vanity_generator.Address.{to_address_string}
use falcon_vanity_generator.Targets.Set.{TargetSet, device_table, first_match_display}
use falcon_vanity_generator.Targets.Parse.{parse}
use falcon_vanity_generator.Cuda.Debug.{DebugC, dbg_match, ed_dbg_pubkey}
use falcon_vanity_generator.Classic.{Ed25519, from_seed, classic_public_key}
use falcon_vanity_generator.SelfTest.{
  SelfTestError, device, ed_pubkey_fails, matcher_fails, bad_targets, panicked, judge, row,
  pipeline_stages, retry_stage,
}

-- `&d[p - 1..p] == "A"`
unfoldable pub other_letter : ℕ → ℕ
other_letter ch = if ch == b'A' then b'B' else b'A'

-- One pattern cut from the display string `d`: number `k`, with the random bytes `p` and `s`.
unfoldable pub cut_pattern : ℕ → ℕ → ℕ → List ℕ → List ℕ
cut_pattern k p s d =
    let neither = p % 7 == 0 && s % 5 == 0 in
    let p' = if neither then 2 else p % 7 in
    let s' = if neither then 0 else s % 5 in
    let pre = take p' d in
    let mutated = set pre (p' - 1) (other_letter (get_or d (p' - 1) 0)) in
    let prefix = if k % 3 == 0 && leb 1 p' then mutated else pre in
    prefix ++ b'-' ∷ drop (58 - s') d

-- The patterns from pattern `k` on, joined by commas.
unfoldable pub cut_patterns : List ℕ → ℕ → List (List ℕ) → List ℕ
cut_patterns rnd k [] = []
cut_patterns rnd k (d ∷ []) = cut_pattern k (get_or rnd (2 * k) 0) (get_or rnd (2 * k + 1) 0) d
cut_patterns rnd k (d ∷ e ∷ ds) =
    cut_pattern k (get_or rnd (2 * k) 0) (get_or rnd (2 * k + 1) 0) d
    ++ b',' ∷ cut_patterns rnd (k + 1) (e ∷ ds)

abbrev pub short_patterns : List ℕ
short_patterns = codes "Q-,-E,AB-,-4,7-A"

-- The loop over the addresses: it stops at the first on which the device is wrong.
unfoldable pub judge_match :
    TargetSet → List ℕ → ℕ → List (List ℕ) → Result SelfTestError (Unit {0})
judge_match set dev i [] = ok tt
judge_match set dev i (d ∷ ds) =
    let rest = judge_match set dev (i + 1) ds in
    let says = not (get_or dev i 0 == 0) in
    let want = is_some (first_match_display set d) in
    if (says && want) || (not says && not want) then rest else err (matcher_fails i)

unfoldable pub match_table :
    DebugC → Bool → List (List ℕ) → List (List ℕ) → List ℕ → Result SelfTestError (Unit {0})
match_table g ed addrs displays t =
    bind (map_err bad_targets (parse none none (some t) true)) (λ set.
      elim (device_table set >>= λ ws. dbg_match g addrs ws ed) [
        | none ↦ err panicked
        | some out ↦ bind (map_err device out) (λ dev. judge_match set dev 0 displays)
      ])

unfoldable pub selftest_matcher :
    Crates → DebugC → Bool → List (List ℕ) → List ℕ → Result SelfTestError (Unit {0})
selftest_matcher x g ed addrs rnd =
    let displays = map (λ a. to_address_string x (record { bytes = a })) addrs in
    bind (match_table g ed addrs displays (cut_patterns rnd 0 (take 200 displays)))
      (λ _. match_table g ed addrs displays short_patterns)

-- `cmd_gpu_selftest` for f1 up to its fifth stage.
unfoldable pub cmd_gpu_selftest :
    Crates
    → FalconC
    → DebugC
    → ℕ
    → List (List ℕ)
    → List (List ℕ)
    → List ℕ
    → Result SelfTestError (Unit {0})
cmd_gpu_selftest x c g threads seeds addrs rnd =
    bind (pipeline_stages x c g seeds)
      (λ _. bind (retry_stage x c g threads seeds) (λ _. selftest_matcher x g false addrs rnd))

unfoldable pub ed_agrees : Ed25519 → List ℕ → ℕ → List ℕ → Bool
ed_agrees d dev i seed = list_eq (row 32 dev i) (classic_public_key d (from_seed seed))

-- `cmd_gpu_selftest` for classic accounts up to its third stage; two seeds are fixed.
unfoldable pub ed_selftest :
    Crates
    → Ed25519
    → DebugC
    → List (List ℕ)
    → List (List ℕ)
    → List ℕ
    → Result SelfTestError (Unit {0})
ed_selftest x d g random addrs rnd =
    let edges = set (set random 0 (replicate 32 0)) 1 (replicate 32 255) in
    let seeds = if leb 2 (length random) then edges else random in
    bind (judge ed_pubkey_fails (ed_agrees d) (ed_dbg_pubkey g seeds false) seeds) (λ _.
      bind (judge ed_pubkey_fails (ed_agrees d) (ed_dbg_pubkey g seeds true) seeds)
        (λ _. selftest_matcher x g true addrs rnd))
