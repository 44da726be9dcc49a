-- ===== src/Cli/Args.antt =====
-- crates/pq-vanity/src/main.rs: the parsed command line. `clap` fills these records; it also refuses
-- options that exclude each other and numbers that do not fit their type.
use falcon_vanity_generator.Base.{
  ℕ, ◌-◌, Bool, true, false, Option, none, some, List, ltb, if◌then◌else◌,
}

pub data Scheme : Type 0 where
  f1 ed25519 : Scheme

unfoldable pub is_f1 : Scheme → Bool
is_f1 f1 = true
is_f1 ed25519 = false

pub record DeriveArgs : Type 0 where
  pub scheme : Scheme
  pub entropy_byte : ℕ
  pub entropy_hex : Option (List ℕ)
  pub mnemonic : Option (List ℕ)
  pub salt : Option ℕ

pub record PatternArgs : Type 0 where
  pub prefix : Option (List ℕ)
  pub suffix : Option (List ℕ)
  pub pattern : Option (List ℕ)
  pub keep_found : Bool

-- `out` is the directory of the hit files.
pub record SearchArgs : Type 0 where
  pub scheme : Scheme
  pub pat : PatternArgs
  pub max_salt : ℕ
  pub allow_non_canonical : Bool
  pub threads : ℕ
  pub count : Option ℕ
  pub out : List ℕ
  pub extra_entropy : Option (List ℕ)
  pub quiet : Bool

-- `available_parallelism()`: the number of cores, or an error.
unfoldable pub default_threads : Option ℕ → ℕ
default_threads none = 1
default_threads (some n) = if ltb (n - 1) 1 then 1 else n - 1

-- `GpuArgs` of the source.
pub record GpuOptions : Type 0 where
  pub scheme : Scheme
  pub pat : PatternArgs
  pub items : Option ℕ
  pub max_salt : Option ℕ
  pub allow_non_canonical : Bool
  pub max_hits : ℕ
  pub count : Option ℕ
  pub out : List ℕ
  pub extra_entropy : Option (List ℕ)
  pub allow_sibling_hits : Bool
  pub batches : ℕ
