-- ===== src/Tester.antt =====
-- src/tester: the campaign that looks for broken invariants.
pub mod BrokenInvariants
pub mod Corpus
pub mod Fuzzer
pub mod Stop
pub mod Shrinker
pub mod Literals
pub mod Values
