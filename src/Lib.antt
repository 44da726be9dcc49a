-- ===== src/Lib.antt =====
-- A vanity address generator for Algorand: it searches for keys whose address, in its base32 display
-- form, starts or ends with given patterns.
--
-- The program's parts and the modules that model them:
-- * crates/pq-core/src/address.rs (Address): addresses, checksum, display form, the off-curve test
--   and the scan for the lowest compliant salt. SHA-512/256, base32 and point decompression are
--   third-party code: the fields of the record Crates, with their documented behaviour as laws.
--   Base32 holds the RFC 4648 encoding that the law of `base32_encode` refers to.
-- * crates/pq-core/src/falcon.rs and fast.rs (Falcon): the wrappers of the C code, whose functions
--   are the fields of the record FalconC.
-- * crates/pq-vanity/src/targets.rs (Targets): Target and `device_words` in Targets, the set with its
--   retirement flags in Targets/Set, the command-line lists in Targets/Parse.
-- * cuda/ed25519_vanity.cu, `ed_match_targets` (Targets/Device): the matcher that both kernels hold.
-- * crates/pq-cuda/src/lib.rs (Cuda): the calls of the two kernels, which are the fields of CudaC.
-- * crates/pq-vanity/src/main.rs, `cmd_gpu` (Gpu): the host loop of the GPU search for f1 accounts;
--   Gpu/Verify is about `verify_one` and `verify_hits`, Gpu/Emit and Gpu/Run about what is written,
--   Gpu/Ends about the end of the loop.
-- * crates/pq-core/src/classic.rs and crates/pq-vanity/src/classic.rs (Classic): Ed25519 accounts, a
--   run of the CPU worker, the host loop of the GPU search.
-- * crates/pq-core/src/mnemonic.rs (Mnemonic): the packing of a key into 11-bit values and back, the
--   word list with its embedded text (Mnemonic/Wordlist), and in Mnemonic/Codec the encoder and the
--   decoder.
-- * crates/pq-vanity/src/entropy.rs (Entropy): the buffer of the mix, its cache, the TPM protocol; its
--   creation and its sources are in Entropy/Probe, and its life as a sequence of calls in
--   Entropy/History.
-- * crates/pq-vanity/src/search.rs (Search): `worker`, the CPU search for f1 accounts, whose rounds
--   take what they read as a list in Search/Worker; `record_hit` and its twin in classic.rs are the
--   step relation of Search/Protocol, in which the workers interleave at every access to what they
--   share (the loads of `any_active` count as one) and may find that the mix fails.
-- * crates/pq-vanity/src/main.rs (Cli): the hex texts, `cmd_derive` (Cli/Derive), and what
--   `cmd_search` and `cmd_gpu` check and start, for both schemes (Cli/Start); Cli/Start/Runs joins it
--   with the workers of Search/Protocol.
-- * `cmd_gpu_selftest` of main.rs and of classic.rs (SelfTest), on the validation entry points of
--   crates/pq-cuda/src/lib.rs (Cuda/Debug), whose kernels are the fields of DebugC.
-- The search asks the target set for a match, the target set asks the address for its display form,
-- and the GPU host loop sends the device words of the active targets to the kernels.
--
-- Base holds what the parts share: tests, lists, bits, digits in a base, results with an error.
-- Text holds the functions of Rust's standard library on strings and on numbers in text. Texts are
-- lists of code points and byte strings are lists of numbers; machine words keep their wrap-around as
-- `% 2 ^ w`. A panic is `none`, or, where a function also ends in errors, the constructor `panicked`
-- of its errors. Random bytes, times and answers of devices are arguments. Loops are structural
-- recursion on the list or the range that the source walks; `scan_salts` counts the 256 salts and `sweep` the salts up to --max-salt.
-- The flags of a target set are read at each salt while other threads may turn them off: a round
-- takes the sets that it reads as a function of the salt (of the key number, in a classic run).
-- The loops over batches, which the source leaves open, take one output of the entropy mix for each
-- batch: `running` means that the given outputs are used up. The TPM loop takes its responses in the
-- same way. `chunks_of` has as fuel the length of the list, which has no more chunks than elements;
-- `drain` has one more than the bits that are there, each round taking eight.
-- A hit written to a file and to the screen is an entry of the log of the progress.
--
-- Not modelled: the kernels besides the matcher (device code that the host verifies), the text that is
-- printed and written to files, the progress lines, the start of threads, the parsing of the command
-- line by clap, the last stage of the self-tests, the benchmarks, and the vendored code.
pub mod Base
pub mod Base32
pub mod Text
pub mod Crates
pub mod Cuda
pub mod Address
pub mod Falcon
pub mod Targets
pub mod Mnemonic
pub mod Entropy
pub mod Search
pub mod Classic
pub mod Gpu
pub mod SelfTest
pub mod Cli
pub mod Witness
