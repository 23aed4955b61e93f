-- ===== src/Tester/Fuzzer/Observed.antt =====
-- What a finding stands for: calls that were executed one by one from the initial state, and a last
-- call, of a handler or an invariant, whose execution there reports the id or meets a filter
-- (`src/tester/fuzzer.rs`).
use ripfuzz.Prelude.{
  ℕ, ◌≡◌, refl, ap, ◌∙◌, ◌⊎◌, inl, inr, Option, none, some, List, [], ◌∷◌, ◌++◌, map, ltb, leb,
  Bool-cases, length, get_elem?, remove, All, All-append, All-remove,
}
use Prim.Native.String.{String}
use text.Mathlib.Text.{◌==◌ as str_eq}
use ripfuzz.Outcome.{Result, ok, err, ◌>>=◌ as bind}
use ripfuzz.Rng.{Rng}
use ripfuzz.Evm.{TransactionResult, Report, ExecOutput, Engine, first}
use ripfuzz.Tester.BrokenInvariants.{BrokenInvariant, Inner, try_add, find, replace, add_found}
use ripfuzz.Tester.Corpus.{Entry, add, add_with_chain, replace_weakest, weakest, max_entries}
use ripfuzz.Tester.Stop.{Codecs}
use ripfuzz.Tester.Fuzzer.{Execution, on_revert, on_panic}

-- A report of the id is in the list.
abbrev pub Has : String → List Report → Type 0
Has id [] = ⊥
Has id (report ∷ reports) = (report.id ≡ id) ⊎ Has id reports

module _ {engine : Engine} {C H : Type 0} (r : Rng) (codecs : Codecs)
    (ex : Execution engine C H r.Gen) where
  open engine use {Chain, Coverage}

  -- The calls of handlers, one by one.
  unfoldable pub replay : Chain → List C → Result Chain
  replay chain [] = ok chain
  replay chain (call ∷ calls) =
      bind (engine.exec chain (ex.transaction call ∷ [])) λ (after, _). replay after calls

  abbrev pub IsSnapshot : List C → Chain → Type 0
  IsSnapshot calls chain = replay ex.chain calls ≡ ok chain

  abbrev pub Stops : String → TransactionResult → Type 0
  Stops id result =
      (on_revert r codecs ex result ≡ some id) ⊎ (on_panic r codecs ex result ≡ some id)

  -- The first transaction reports the id, or its result meets a filter that makes the id.
  abbrev pub FirstShows : String → ExecOutput Coverage → Type 0
  FirstShows id output =
      ((reports : List Report) × ((first output.broken_invariants ≡ some reports) × Has id reports))
      ⊎ ((result : TransactionResult) × ((first output.results ≡ some result) × Stops id result))

  -- The same of the transaction of an invariant.
  abbrev pub ShowsAt : ℕ → String → ExecOutput Coverage → Type 0
  ShowsAt i id output =
      ((reports : List Report) × ((get_elem? output.broken_invariants i ≡ some reports)
          × Has id reports))
      ⊎ ((result : TransactionResult) × ((get_elem? output.results i ≡ some result)
            × Stops id result))

  pub data Observed (sequence : List C) (id : String) : Type 0 where
    by_handler :
        (calls : List C) (call : C) (chain : Chain) (out : Chain × ExecOutput Coverage)
        → sequence ≡ calls ++ call ∷ []
        → IsSnapshot calls chain
        → engine.exec chain (ex.transaction call ∷ []) ≡ ok out
        → FirstShows id out.1
        → Observed sequence id
    by_invariant :
        (calls : List C) (chain : Chain) (i : ℕ) (h : H) (out : Chain × ExecOutput Coverage)
        → sequence ≡ calls ++ ex.invariant_call h ∷ []
        → IsSnapshot calls chain
        → engine.exec chain (map ex.invariant_transaction ex.invariants) ≡ ok out
        → get_elem? ex.invariants i ≡ some h
        → ShowsAt i id out.1
        → Observed sequence id

  replay_step : C → Chain → Result Chain
  replay_step call chain =
      bind (engine.exec chain (ex.transaction call ∷ [])) λ (after, _). ok after

  replay-snoc :
      (from : Chain) (calls : List C) (call : C)
      → replay from (calls ++ call ∷ []) ≡ bind (replay from calls) (replay_step call)
  unfolding replay replay_step
  replay-snoc from [] call = refl
  replay-snoc from (c ∷ calls) call =
      go (engine.exec from (ex.transaction c ∷ [])) (λ after. replay-snoc after calls call)
    where
      go :
          (m : Result (Chain × ExecOutput Coverage))
          → ((after : Chain)
              → replay after (calls ++ call ∷ []) ≡ bind (replay after calls) (replay_step call))
          → bind m (λ (after, _). replay after (calls ++ call ∷ []))
            ≡ bind (bind m (λ (after, _). replay after calls)) (replay_step call)
      go (ok (after, _)) h = h after
      go (err e) h = refl

  pub IsSnapshot-initial : IsSnapshot [] ex.chain
  unfolding replay
  IsSnapshot-initial = refl

  pub IsSnapshot-snoc :
      (calls : List C) (call : C) (chain : Chain) (out : Chain × ExecOutput Coverage)
      → IsSnapshot calls chain
      → engine.exec chain (ex.transaction call ∷ []) ≡ ok out
      → IsSnapshot (calls ++ call ∷ []) out.0
  unfolding replay_step
  IsSnapshot-snoc calls call chain out snap e =
      replay-snoc ex.chain calls call ∙ ap (λ m. bind m (replay_step call)) snap ∙ rw e refl

-- Whatever holds of a finding that is offered and of all that are held, holds of all held afterwards.
module _ {C : Type 0} (P : BrokenInvariant C → Type 0) where
  replace-All :
      (b : BrokenInvariant C) (bs : List (BrokenInvariant C))
      → P b
      → All P bs
      → All P (replace b bs)
  unfolding replace
  replace-All b [] h hs = tt
  replace-All b (x ∷ xs) h hs = elim (Bool-cases (str_eq x.id b.id)) [
    | inl z ↦ rw z (h, hs.1)
    | inr z ↦ rw z (hs.0, replace-All b xs h hs.1)
  ]

  pub try_add-All :
      (limit : ℕ) (inner : Inner C) (b : BrokenInvariant C)
      → P b
      → All P inner.broken_invariants
      → All P (try_add limit inner b).0.broken_invariants
  unfolding try_add
  try_add-All limit inner b h hs = go (find b.id inner.broken_invariants)
    where
      go : (o : Option (BrokenInvariant C)) → All P (add_found limit inner b o).0.broken_invariants
      go none = elim (Bool-cases (leb limit (length inner.broken_invariants))) [
        | inl z ↦ rw z hs
        | inr z ↦ rw z (All-append P inner.broken_invariants (b ∷ []) hs (h, tt))
      ]
      go (some x) = elim (Bool-cases (ltb (length b.sequence) (length x.sequence))) [
        | inl z ↦ rw z (replace-All b inner.broken_invariants h hs)
        | inr z ↦ rw z hs
      ]

-- The same of the entries of the corpus that have a state.
module _ {C Chain : Type 0} (P : List C → Chain → Type 0) where
  abbrev pub OfState : List C → Option Chain → Type 0
  OfState sequence none = Unit {0}
  OfState sequence (some chain) = P sequence chain

  abbrev pub OfEntry : Entry C Chain → Type 0
  OfEntry e = OfState e.sequence e.chain

  pub add-All :
      (es : List (Entry C Chain)) (sequence : List C) (new_edges : ℕ) (chain : Chain)
      → All OfEntry es
      → P sequence chain
      → All OfEntry (add es sequence new_edges chain)
  unfolding add add_with_chain
  add-All es sequence new_edges chain hs h = elim (Bool-cases (leb max_entries (length es))) [
    | inl z ↦ rw z (go (weakest es))
    | inr z ↦ rw z (All-append OfEntry es (e ∷ []) hs (h, tt))
  ]
    where
      e : Entry C Chain
      e = record { sequence = sequence; new_edges = new_edges; chain = some chain }

      go : (o : Option (ℕ × ℕ)) → All OfEntry (replace_weakest es e o)
      go none = hs
      go (some (i, edges)) = elim (Bool-cases (leb edges new_edges)) [
        | inl z ↦
            rw z (All-append OfEntry (remove es i) (e ∷ []) (All-remove OfEntry es i hs) (h, tt))
        | inr z ↦ rw z hs
      ]
