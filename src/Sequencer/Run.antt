-- ===== src/Sequencer/Run.antt =====
-- `Run` of src/sequencer.cpp: level by level, one test at a time or in chunks of threads.
-- The order in which the threads of a chunk take their steps is an argument, the index of the next
-- thread to go; those that it leaves unfinished end when their futures are waited for.
mod Trace
mod Pool
mod Drain
pub mod Filed
mod Chunks
mod Found
mod Chunked
mod Serial
mod Needs
mod Whole
pub mod Genuine
pub mod Results
mod Answers
pub mod Chain
pub mod InOrder
mod Once
mod Tests
use Prim.Native.String.{String}
use text.Mathlib.Text.{◌==◌ as str_eq}
use soc_validation_framework.Prelude.{
  ℕ, zero, suc, ◌+◌, List, [], ◌∷◌, map, Option, none, some, leb, if◌then◌else◌, length, take, drop,
}
use soc_validation_framework.Bus.{undefined_access, Result, ok, err}
use soc_validation_framework.Sequencer.{TestCase, levels}
use soc_validation_framework.Sequencer.RunOne.{Callbacks, TestResult, skip, run_one}
use soc_validation_framework.Sequencer.Thread.{
  Environment, Phase, waiting, finished, Thread, Event, begins, ends, Shared, step, complete,
}

module _ {W Time : Type 0} where
  abbrev pub start : ℕ → TestCase (Callbacks W) → Thread W Time
  start level test = record { test = test; level = level; phase = waiting }

  -- The results of the threads that have ended, in order.
  pub collect : List (Thread W Time) → List (TestResult Time)
  collect [] = []
  collect (t ∷ ts) = elim t.phase [ finished r ↦ r ∷ collect ts | _ ↦ collect ts ]

module _ {W : Type 0} where
  -- The dereferenced `std::find_if`.
  unfoldable pub find_test :
      String → List (TestCase (Callbacks W)) → Option (TestCase (Callbacks W))
  find_test n [] = none
  find_test n (t ∷ ts) = if str_eq t.name n then some t else find_test n ts

  pub find_all :
      List String → List (TestCase (Callbacks W)) → Option (List (TestCase (Callbacks W)))
  unfolding find_test
  find_all [] tests = some []
  find_all (n ∷ ns) tests = elim (find_test n tests) [
    | none ↦ none
    | some t ↦ elim (find_all ns tests) [ none ↦ none | some ts ↦ some (t ∷ ts) ]
  ]

-- `by_name`, and its entry for a name.
abbrev pub ByName : Type 0 → Type 0
ByName Time = String → Option (TestResult Time)

-- The shared state and `by_name`.
pub record Progress (W Time : Type 0) : Type 0 where
  pub shared : Shared W
  pub by_name : ByName Time

module _ {Time : Type 0} where
  pub file : String → TestResult Time → ByName Time → ByName Time
  file name r by_name n = if str_eq n name then some r else by_name n

  -- The loop over the futures.
  pub file_all : List (TestResult Time) → ByName Time → ByName Time
  unfolding file
  file_all [] by_name = by_name
  file_all (r ∷ rs) by_name = file_all rs (file r.name r by_name)

module _ {W Time : Type 0} (env : Environment W Time) where
  pub step_at : ℕ → List (Thread W Time) → Shared W → List (Thread W Time) × Shared W
  step_at i [] s = ([], s)
  step_at zero (t ∷ ts) s = let (t', s') = step env t s in (t' ∷ ts, s')
  step_at (suc i) (t ∷ ts) s = let (ts', s') = step_at i ts s in (t ∷ ts', s')

  pub interleave : List ℕ → List (Thread W Time) → Shared W → List (Thread W Time) × Shared W
  unfolding step_at
  interleave [] ts s = (ts, s)
  interleave (i ∷ order) ts s = let (ts', s') = step_at i ts s in interleave order ts' s'

  pub drain : List (Thread W Time) → Shared W → List (Thread W Time) × Shared W
  drain [] s = ([], s)
  drain (t ∷ ts) s =
      let (t', s') = complete env t s in let (ts', s'') = drain ts s' in (t' ∷ ts', s'')

  -- Launch the tests of a chunk, let them run, and wait for all.
  pub run_threads : List ℕ → List (Thread W Time) → Shared W → List (Thread W Time) × Shared W
  unfolding interleave drain
  run_threads order ts s = let (ts', s') = interleave order ts s in drain ts' s'

  pub run_chunk : List ℕ → ℕ → List (TestCase (Callbacks W)) → Progress W Time → Progress W Time
  unfolding run_threads collect file_all
  run_chunk order level tests p =
      let (ts, s) = run_threads order (map (start level) tests) p.shared in
      record { shared = s; by_name = file_all (collect ts) p.by_name }

  module _ (tests : List (TestCase (Callbacks W))) where
    -- `threads <= 1`: one after another.
    pub run_serial : ℕ → List String → Progress W Time → Result (Unit {0}) × Progress W Time
    unfolding find_test file
    run_serial level [] p = (ok tt, p)
    run_serial level (n ∷ ns) p = elim (find_test n tests) [
      | none ↦ (err undefined_access, p)
      | some test ↦
          let (r, w) =
            run_one (env.duration test.name) env.to_decimal env.counter (env.late test.name) test
              level p.shared.world in
          run_serial level ns (record {
            shared = record {
              world = w;
              trace = ends test.name ∷ begins test.name ∷ p.shared.trace;
            };
            by_name = file n r p.by_name;
          })
    ]

    -- The chunk loop from index `start`, whose names are those that are left; `orders start` is how
    -- the chunk at that index interleaves. `none` means that the fuel ran out.
    pub run_chunks :
        (fuel : ℕ)
        → (ℕ → List ℕ)
        → (threads level start : ℕ) → List String
        → Progress W Time
        → Option (Result (Unit {0}) × Progress W Time)
    unfolding find_all run_chunk
    run_chunks fuel orders threads level start [] p = some (ok tt, p)
    run_chunks zero orders threads level start (n ∷ ns) p = none
    run_chunks (suc fuel) orders threads level start (n ∷ ns) p =
        elim (find_all (take threads (n ∷ ns)) tests) [
          | none ↦ some (err undefined_access, p)
          | some chunk ↦
              run_chunks fuel orders threads level (start + threads) (drop threads (n ∷ ns))
                (run_chunk (orders start) level chunk p)
        ]

    pub run_level :
        (ℕ → List ℕ)
        → (threads level : ℕ) → List String
        → Progress W Time
        → Option (Result (Unit {0}) × Progress W Time)
    unfolding run_serial run_chunks
    run_level orders threads level names p =
        if leb threads 1
        then some (run_serial level names p)
        else run_chunks (length names) orders threads level 0 names p

    pub run_levels :
        (ℕ → ℕ → List ℕ)
        → (threads level : ℕ) → List (List String)
        → Progress W Time
        → Option (Result (Unit {0}) × Progress W Time)
    unfolding run_level
    run_levels orders threads level [] p = some (ok tt, p)
    run_levels orders threads level (names ∷ rest) p =
        elim (run_level (orders level) threads level names p) [
          | none ↦ none
          | some (err e, p') ↦ some (err e, p')
          | some (ok _, p') ↦ run_levels orders threads (suc level) rest p'
        ]

-- `TestResult{}`, which `by_name[name]` makes where there is none.
pub no_result : {Time : Type 0} → Time → TestResult Time
no_result no_time = record {
  name = "";
  status = skip;
  duration_ms = no_time;
  message = "";
  register_accesses = 0;
  level = 0;
}

module _ {W Time : Type 0} (no_time : Time) where
  -- The results in declaration order.
  pub ordered : List (TestCase (Callbacks W)) → ByName Time → List (TestResult Time)
  unfolding no_result
  ordered [] by_name = []
  ordered (t ∷ ts) by_name = elim (by_name t.name) [
    | none ↦ no_result no_time ∷ ordered ts by_name
    | some r ↦ r ∷ ordered ts by_name
  ]

module _ {W Time : Type 0} (env : Environment W Time) (no_time : Time) where
  -- `Run`; `orders level start` interleaves the chunk of that level at index `start`.
  unfoldable pub run_suite :
      (ℕ → ℕ → List ℕ)
      → ℕ
      → List (TestCase (Callbacks W))
      → Shared W
      → Option (Result (List (TestResult Time)) × Shared W)
  unfolding run_levels ordered
  run_suite orders threads tests s = elim (levels tests) [
    | none ↦ none
    | some (err e) ↦ some (err e, s)
    | some (ok ls) ↦
        elim (run_levels env tests orders threads 0 ls
          (record { shared = s; by_name = λ n. none })) [
            | none ↦ none
            | some (err e, p) ↦ some (err e, p.shared)
            | some (ok _, p) ↦ some (ok (ordered no_time tests p.by_name), p.shared)
          ]
  ]
