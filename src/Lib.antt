-- ===== src/Lib.antt =====
-- ripfuzz: a fuzzer for smart contracts. A harness contract is deployed once, and worker threads
-- execute random sequences of calls on copies of its chain, in one of two campaigns: `test` looks
-- for broken invariants, `max` for a sequence after which the harness reports the largest value.
--
-- Which file models which part (paths from the repository's root):
--   Evm                     the records that the campaigns read of an execution (src/evm/result.rs,
--                           src/evm/chain/exec.rs, src/evm/chain/broken_invariant.rs)
--   Evm/Exec                the execution of transactions on a chain (src/evm/chain/mod.rs)
--   Sequence                random sequences, deletion and prefixes (src/maxer/sequence.rs, and alike
--                           src/tester/corpus/sequence.rs)
--   Maxer/Delta             changes of the value (src/maxer/delta.rs)
--   Maxer/Records           the extreme changes of each class of calls (src/maxer/records.rs)
--   Maxer/Best              the best sequence of a campaign (src/maxer/best.rs)
--   Maxer/Corpus            the sequences that a campaign expands (src/maxer/corpus.rs)
--   Maxer/Value             decoding the value (src/maxer/value.rs)
--   Maxer/Fuzzer            the campaign and its workers (src/maxer/fuzzer.rs)
--   Maxer/Shrinker          shrinking the best sequence with several threads (src/maxer/shrinker.rs)
--   Tester/BrokenInvariants the findings, one for each id (src/tester/broken_invariant.rs)
--   Tester/Corpus           the corpus of a test campaign (src/tester/corpus/mod.rs)
--   Tester/Fuzzer           the campaign and its workers (src/tester/fuzzer.rs)
--   Tester/Shrinker         shrinking the findings with several threads (src/tester/shrinker.rs)
--   Tester/Literals         the literals of the sources (src/tester/corpus/literal.rs)
--   Tester/Values           random argument values (src/tester/corpus/rvg.rs)
--   Tester/Stop             which reverts and panics stop a campaign (src/tester/stop.rs)
--   Cheatcode/Prank         the prank cheatcodes (src/evm/cheatcode/calls/prank.rs, state.rs)
--   Cheatcode/Inspector     pranks at frames and calls (src/evm/cheatcode/inspector.rs)
--   Coverage/Edge           the markers of edges (src/evm/coverage/edge.rs)
--   Coverage/Exec           what one execution covers (src/evm/coverage/exec.rs)
--   Coverage/Inspector      how an execution's frames are recorded (src/evm/coverage/inspector.rs)
--   Coverage/Shared         what all executions cover (src/evm/coverage/shared.rs)
--   Forkdb/Limiter          the rate limiter of a fork's RPC (src/evm/forkdb/limiter.rs)
-- Threads has the threads that a schedule steps, Outcome the errors, Rng the random generator,
-- Bits and Bitsets the binary digits, Prelude the lists and tests that all share, and Tests the
-- runs at concrete inputs.
--
-- How they interact: a worker draws a base from its corpus, executes it with new calls, and offers
-- the outcome to the shared coverage, records, best sequence and corpus; when the campaign is over,
-- the shrinker replays shortened sequences on clean chains. Mutexes and atomics are the order of
-- the steps in a schedule: a shrinker's thread takes a step for each access of the shared state, a
-- campaign's worker for each call, with all that it counts, merges, collects and checks around it.
--
-- Numbers: a value of 64 or 32 bits is a natural number with the source's wrapping or saturation
-- written out where it can happen; values of 256 bits are natural numbers, since nothing computes
-- past their range. Addresses, hashes and selectors are their numbers. Lists stand for vectors, and
-- association lists for maps.
--
-- Parameters: the execution of one transaction by the revm crate (`Revm`), and in the campaigns that
-- of a list of them (`Engine`, which `exec` on a chain fills), the random generator with the
-- ranges that it documents (`Rng`), ABI decoding and hex digits (`Codecs`), the bit length
-- of an integer, the random calls of a handler, and the clock.
-- There is no fuel: the workers are stepped by a schedule, and all other loops are
-- structural.
--
-- Not modelled: the extraction of literals from the syntax tree, statistics, the corpus files,
-- the other cheatcodes, the fork's database, traces, coverage reports, the compiler and the command
-- line. They are glue over other crates, or still to come.
mod Prelude
mod Bits
mod Bitsets
pub mod Coverage
pub mod Forkdb
pub mod Cheatcode
pub mod Outcome
pub mod Rng
pub mod Evm
pub mod Sequence
pub mod Maxer
pub mod Tester
pub mod Threads
mod Tests
