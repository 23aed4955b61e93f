-- ===== src/Tests.antt =====
-- Runs of the model at concrete inputs.
mod Maxer
mod Tester
mod Evm
mod Engine
mod Stop
mod Fuzzer
mod Shrinker
mod Values
mod Campaign
mod Chain
mod Inspector
