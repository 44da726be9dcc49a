-- ===== src/Witness.antt =====
-- Concrete inputs for the theorems: one module for each part of the program.
pub mod Demo
pub mod Gpu
pub mod Classic
pub mod Cli
pub mod Derive
pub mod Entropy
pub mod Mnemonic
pub mod Protocol
pub mod Targets
pub mod Search
pub mod Start
pub mod SelfTest
