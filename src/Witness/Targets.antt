-- ===== src/Witness/Targets.antt =====
-- The targets and the matchers at one address and one `--pattern` option.
use falcon_vanity_generator.Base.{
  ℕ, ◌<◌, true, false, ◌&&◌, none, some, List, [], ◌∷◌, codes, ◌≡◌, refl, ◌↔◌, arith, if◌then◌else◌,
  is_some, starts_with, ends_with, list_eq,
}
use falcon_vanity_generator.Base.Results.{ok, err, collect}
use falcon_vanity_generator.Base32.{base32_nopad, find}
use falcon_vanity_generator.Address.{
  pq_address, IsAddress, to_address_string, checksum, is_pq_compliant, canonical_pq_salt,
}
use falcon_vanity_generator.Address.Salt.{
  IsLowest, canonical_pq_salt_iff, canonical_pq_salt-none_iff,
}
use falcon_vanity_generator.Targets.{
  Target, IsTarget, device_words, matches_display, ends_well, last_char?, DeviceWords,
}
use falcon_vanity_generator.Targets.Device.{entry_matches, match_targets}
use falcon_vanity_generator.Targets.Device.Agrees.{device_words-agrees}
use falcon_vanity_generator.Targets.Set.{
  TargetSet, IsTargetSet, check_gpu, device_table, first_match, first_match_from, display_or,
  first_match_display, is_active,
}
use falcon_vanity_generator.Targets.Set.Match.{first_match-agrees}
use falcon_vanity_generator.Targets.Set.Table.{device_table-agrees}
use falcon_vanity_generator.Targets.Set.Claim.{grants, asked, grants_once}
use falcon_vanity_generator.Targets.Parse.{
  parse, expand, ParseError, split_option, contains, split_list, split_entry, pair_target,
  split_pair, is_empty, product, with_suffixes, dedup_loop, check_target, check_chars, check_last,
  finish, longest_prefix, target_eq,
}
use falcon_vanity_generator.Text.{
  split, to_ascii_uppercase, trim, split_once, is_whitespace, to_ascii_upper, trim_start, trim_end,
}
use falcon_vanity_generator.Targets.Parse.Accepts.{IsParsed, parse-IsParsed}
use falcon_vanity_generator.Targets.Parse.Expand.{expand-product, mem, parse_accepts, parse_rejects}
use falcon_vanity_generator.Search.Sound.{pq_address-IsAddress}
use falcon_vanity_generator.Witness.Demo.{demo, all_on_curve, demo_address, demo_key}

abbrev both_ends : Target
both_ends = record { prefix = codes "2Y"; suffix = codes "3Y" }

abbrev front_only : Target
front_only = record { prefix = codes "Q"; suffix = [] }

-- `1` is not in the alphabet.
abbrev bad_front : Target
bad_front = record { prefix = codes "A1"; suffix = [] }

both_ends-IsTarget : IsTarget both_ends
unfolding ends_well last_char? find
both_ends-IsTarget = record {
  prefix_chars = (refl, (refl, tt));
  suffix_chars = (refl, (refl, tt));
  suffix_ends = refl;
  some_pattern = omega arith;
  within_display = omega arith;
}

front_only-IsTarget : IsTarget front_only
unfolding ends_well last_char? find
front_only-IsTarget = record {
  prefix_chars = (refl, tt);
  suffix_chars = tt;
  suffix_ends = refl;
  some_pattern = omega arith;
  within_display = omega arith;
}

bad_front-not : ¬ IsTarget bad_front
unfolding find
bad_front-not h = cc (h.prefix_chars.1.0)

abbrev two_targets : TargetSet
two_targets = record {
  list = front_only ∷ both_ends ∷ [];
  active = true ∷ true ∷ [];
  retire = true;
  max_prefix = 2;
}

two_targets-IsTargetSet : IsTargetSet two_targets
two_targets-IsTargetSet = record {
  targets = (front_only-IsTarget, (both_ends-IsTarget, tt));
  prefixes = (omega arith, (omega arith, tt));
  flags = refl;
  some_target = omega arith;
  room = omega arith;
}

demo_address-IsAddress : IsAddress demo_address
demo_address-IsAddress = pq_address-IsAddress demo 0 demo_key

device_words-agrees_example :
    (w : DeviceWords) × (device_words both_ends ≡ some w)
    × (entry_matches demo demo_address.bytes w
        ≡ matches_display both_ends (to_address_string demo demo_address))
device_words-agrees_example =
    device_words-agrees demo demo_address demo_address-IsAddress both_ends both_ends-IsTarget
      (omega arith, omega arith)

first_match-agrees_example :
    first_match demo two_targets demo_address
    ≡ first_match_display two_targets (to_address_string demo demo_address)
first_match-agrees_example =
    first_match-agrees demo demo_address demo_address-IsAddress two_targets two_targets-IsTargetSet

-- The address of the example does match: the second target.
matches_second : first_match demo two_targets demo_address ≡ some 1
unfolding first_match first_match_from is_active display_or to_address_string checksum pq_address
    demo starts_with ends_with base32_nopad list_eq
matches_second = refl

device_table-agrees_example :
    (ws : List DeviceWords) × (device_table two_targets ≡ some ws)
    × (match_targets demo demo_address.bytes ws
        ≡ is_some (first_match_display two_targets (to_address_string demo demo_address)))
unfolding check_gpu
device_table-agrees_example =
    device_table-agrees demo demo_address demo_address-IsAddress two_targets two_targets-IsTargetSet
      refl

grants_once_example :
    grants 1 two_targets (1 ∷ 0 ∷ 1 ∷ [])
    ≡ (if is_active two_targets 1 && asked 1 (1 ∷ 0 ∷ 1 ∷ []) then 1 else 0)
grants_once_example = grants_once 1 two_targets (1 ∷ 0 ∷ 1 ∷ []) refl

parse-IsParsed_example :
    (list : List Target) × (expand none none (some (codes "q-, 2y..3y,Q-")) ≡ ok list)
    × IsParsed list false two_targets
unfolding parse expand split_list split_entry collect split to_ascii_uppercase trim pair_target
    split_pair split_once is_empty is_whitespace to_ascii_upper trim_start trim_end product
    with_suffixes split_option starts_with dedup_loop check_target check_chars find check_last
    last_char? list_eq contains finish longest_prefix target_eq
parse-IsParsed_example =
    parse-IsParsed none none (some (codes "q-, 2y..3y,Q-")) false two_targets refl

parse_accepts_example : (s : TargetSet) × (parse none none (some (codes "q-, 2y..3y")) true ≡ ok s)
unfolding expand split_list split_entry collect split to_ascii_uppercase trim pair_target split_pair
    split_once is_empty is_whitespace to_ascii_upper trim_start trim_end product with_suffixes
    split_option starts_with
parse_accepts_example =
    parse_accepts none none (some (codes "q-, 2y..3y")) true (front_only ∷ both_ends ∷ []) refl
      (front_only-IsTarget, (both_ends-IsTarget, tt)) (omega arith) (omega arith)

parse_rejects_example : (x : ParseError) × (parse (some (codes "q,a1")) none none false ≡ err x)
unfolding contains list_eq target_eq expand split_list split_entry collect split to_ascii_uppercase
    trim pair_target split_pair split_once is_empty is_whitespace to_ascii_upper trim_start trim_end
    product with_suffixes split_option starts_with
parse_rejects_example =
    parse_rejects (some (codes "q,a1")) none none false (front_only ∷ bad_front ∷ []) bad_front refl
      refl bad_front-not

expand-product_example :
    (ps ss : List (List ℕ)) × (split_option (some (codes "q,a")) ≡ ok ps)
    × (split_option none ≡ ok ss)
    × ((t : Target)
        → contains (front_only ∷ record { prefix = codes "A"; suffix = [] } ∷ []) t
          ≡ (mem ps t.prefix && mem ss t.suffix))
unfolding expand split_list split_entry collect split to_ascii_uppercase trim pair_target split_pair
    split_once is_empty is_whitespace to_ascii_upper trim_start trim_end product with_suffixes
    split_option starts_with
expand-product_example =
    expand-product (some (codes "q,a")) none
      (front_only ∷ record { prefix = codes "A"; suffix = [] } ∷ []) refl

canonical_pq_salt_iff_example :
    (canonical_pq_salt demo demo_key ≡ some (0, demo_address))
    ↔ IsLowest demo demo_key 0 256 0 demo_address
canonical_pq_salt_iff_example = canonical_pq_salt_iff demo demo_key 0 demo_address

canonical_pq_salt-none_iff_example : (canonical_pq_salt all_on_curve demo_key ≡ none) ↔ (
    (t : ℕ) → t < 256 → is_pq_compliant all_on_curve (pq_address all_on_curve t demo_key) ≡ false)
canonical_pq_salt-none_iff_example = canonical_pq_salt-none_iff all_on_curve demo_key
