-- ===== src/Maxer.antt =====
-- src/maxer: the campaign that maximises a harness value.
pub mod Delta
pub mod Fuzzer
pub mod Records
pub mod Best
pub mod Corpus
pub mod Value
pub mod Shrinker
