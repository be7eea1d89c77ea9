-- ===== src/Sequencer/Run/Chain.antt =====
-- Levels of one test each: threads and their interleaving make no difference.
use Prim.Native.String.{String}
use soc_validation_framework.Prelude.{
  ℕ, zero, suc, ◌≡◌, refl, sym, ◌∙◌, ap, fun_ext, Option, List, [], ◌∷◌, map, some, none,
  Option-cases, inl, inr, arith,
}
use soc_validation_framework.Bus.{Result, ok, err}
use soc_validation_framework.Sequencer.{TestCase, levels}
use soc_validation_framework.Sequencer.RunOne.{Callbacks, TestResult, run_one, report}
use soc_validation_framework.Sequencer.Thread.{
  Environment, Thread, Shared, finished, step, steps, complete, complete-run_one, begins, ends,
  advance, noted,
}
use soc_validation_framework.Sequencer.Run.Found.{find_test-name}
use soc_validation_framework.Sequencer.Run.{
  start, collect, find_test, find_all, Progress, file, file_all, step_at, interleave, drain,
  run_threads, run_chunk, run_serial, run_chunks, run_level, run_levels, ordered, run_suite,
}

module _ {W Time : Type 0} (env : Environment W Time) where
  abbrev State : Type 0
  State = Thread W Time × Shared W

  abbrev step_of : State → State
  step_of x = step env x.0 x.1

  abbrev steps_of : ℕ → State → State
  steps_of n x = steps env n x.0 x.1

  step-steps : (n : ℕ) (x : State) → step_of (steps_of n x) ≡ steps_of n (step_of x)
  unfolding steps
  step-steps zero x = refl
  step-steps (suc n) x = step-steps n (step_of x)

  -- Once five steps end a thread, they end it from any state that it passes.
  steps-steps :
      (k : ℕ) (x : State)
      → step_of (steps_of 5 x) ≡ steps_of 5 x
      → steps_of 5 (steps_of k x) ≡ steps_of 5 x
  unfolding steps
  steps-steps zero x fixed = refl
  steps-steps (suc k) x fixed =
      let same : steps_of 5 (step_of x) ≡ steps_of 5 x = sym (step-steps 5 x) ∙ fixed in
      steps-steps k (step_of x) (ap step_of same ∙ fixed ∙ sym same) ∙ same

  -- What any order makes of one thread: some number of its steps.
  interleave_one :
      (order : List ℕ) (x : State)
      → (k : ℕ) × (interleave env order (x.0 ∷ []) x.1 ≡ ((steps_of k x).0 ∷ [], (steps_of k x).1))
  unfolding interleave step_at steps
  interleave_one [] x = (0, refl)
  interleave_one (zero ∷ order) x = let (k, e) = interleave_one order (step_of x) in (suc k, e)
  interleave_one (suc i ∷ order) x = interleave_one order x

  -- A test on a thread of its own: what `RunOne` returns and leaves.
  alone : ℕ → TestCase (Callbacks W) → Shared W → State
  alone level test s =
      let (r, w) =
        run_one (env.duration test.name) env.to_decimal env.counter (env.late test.name) test level
          s.world in
      (
        record { test = test; level = level; phase = finished r },
        record { world = w; trace = ends test.name ∷ begins test.name ∷ s.trace },
      )

  alone-fixed :
      (level : ℕ) (test : TestCase (Callbacks W)) (s : Shared W)
      → step_of (alone level test s) ≡ alone level test s
  unfolding alone step advance noted
  alone-fixed level test s = refl

  start-alone :
      (level : ℕ) (test : TestCase (Callbacks W)) (s : Shared W)
      → steps_of 5 (start level test, s) ≡ alone level test s
  unfolding alone complete
  start-alone level test s = complete-run_one env test level s

  run_threads_one :
      (order : List ℕ) (level : ℕ) (test : TestCase (Callbacks W)) (s : Shared W)
      → run_threads env order (start level test ∷ []) s
        ≡ ((alone level test s).0 ∷ [], (alone level test s).1)
  unfolding run_threads drain complete
  run_threads_one order level test s =
      let x : State = (start level test, s) in
      let (k, e) = interleave_one order x in
      let ended = start-alone level test s in
      let fixed = ap step_of ended ∙ alone-fixed level test s ∙ sym ended in
      ap (λ (y : List (Thread W Time) × Shared W). drain env y.0 y.1) e
      ∙ ap (λ (y : State). (y.0 ∷ [], y.1)) (steps-steps k x fixed ∙ ended)

  -- So a chunk of one test is what a serial run makes of it.
  unfoldable pub filed : String → ℕ → TestCase (Callbacks W) → Progress W Time → Progress W Time
  filed n level test p =
      let (r, w) =
        run_one (env.duration test.name) env.to_decimal env.counter (env.late test.name) test level
          p.shared.world in
      record {
        shared = record { world = w; trace = ends test.name ∷ begins test.name ∷ p.shared.trace };
        by_name = file n r p.by_name;
      }

  run_chunk_one :
      (order : List ℕ) (level : ℕ) (test : TestCase (Callbacks W)) (p : Progress W Time)
      → run_chunk env order level (test ∷ []) p ≡ filed test.name level test p
  unfolding run_chunk collect file_all filed alone run_one report
  run_chunk_one order level test p =
      ap
        (λ (y : List (Thread W Time) × Shared W). record {
          shared = y.1;
          by_name = file_all (collect y.0) p.by_name;
        })
        (run_threads_one order level test p.shared)

  module _ (tests : List (TestCase (Callbacks W))) where
    run_chunks-found :
        (order : ℕ → List ℕ) (threads level : ℕ) (n : String) (test : TestCase (Callbacks W))
        (p : Progress W Time)
        → find_test n tests ≡ some test
        → run_chunks env tests 1 order (suc (suc threads)) level 0 (n ∷ []) p
          ≡ some (ok tt, run_chunk env (order 0) level (test ∷ []) p)
    unfolding run_chunks find_all
    run_chunks-found order threads level n test p e = ground (arith, e)

    pub run_serial-found :
        (level : ℕ) (n : String) (test : TestCase (Callbacks W)) (p : Progress W Time)
        → find_test n tests ≡ some test
        → run_serial env tests level (n ∷ []) p ≡ (ok tt, filed n level test p)
    unfolding run_serial filed
    run_serial-found level n test p e = rw (e, run_serial) refl

    run_chunks_one :
        (order : ℕ → List ℕ) (threads level : ℕ) (n : String) (p : Progress W Time)
        → run_chunks env tests 1 order (suc (suc threads)) level 0 (n ∷ []) p
          ≡ some (run_serial env tests level (n ∷ []) p)
    unfolding run_chunks run_serial find_all
    run_chunks_one order threads level n p = elim (Option-cases (find_test n tests)) [
      | inl e ↦ ground (arith, e)
      | inr (test, e) ↦
          run_chunks-found order threads level n test p e
          ∙ ap (λ q. some (ok tt, q))
              (run_chunk_one (order 0) level test p
                ∙ ap (λ m. filed m level test p) (find_test-name n tests test e))
          ∙ ap some (sym (run_serial-found level n test p e))
    ]

    pub run_level_one :
        (order : ℕ → List ℕ) (threads level : ℕ) (n : String) (p : Progress W Time)
        → run_level env tests order threads level (n ∷ []) p
          ≡ some (run_serial env tests level (n ∷ []) p)
    unfolding run_level
    run_level_one order zero level n p = refl
    run_level_one order (suc zero) level n p = refl
    run_level_one order (suc (suc threads)) level n p =
        ground (arith, run_chunks_one order threads level n p)

    -- What `run_levels` goes on with after a level.
    abbrev pub continue :
        (Progress W Time → Option (Result (Unit {0}) × Progress W Time))
        → Option (Result (Unit {0}) × Progress W Time)
        → Option (Result (Unit {0}) × Progress W Time)
    continue k x = elim x [
      | none ↦ none
      | some (err e, p') ↦ some (err e, p')
      | some (ok _, p') ↦ k p'
    ]

    -- Each level holds one name.
    pub chain_levels :
        (orders orders' : ℕ → ℕ → List ℕ) (threads level : ℕ) (names : List String)
        (p : Progress W Time)
        → run_levels env tests orders threads level (map (λ n. n ∷ []) names) p
          ≡ run_levels env tests orders' 1 level (map (λ n. n ∷ []) names) p
    unfolding run_levels
    chain_levels orders orders' threads level [] p = refl
    chain_levels orders orders' threads level (n ∷ names) p =
        let many = run_levels env tests orders threads (suc level) (map (λ m. m ∷ []) names) in
        let one = run_levels env tests orders' 1 (suc level) (map (λ m. m ∷ []) names) in
        let same : many ≡ one =
          fun_ext (λ q. chain_levels orders orders' threads (suc level) names q) in
        ap (continue many) (run_level_one (orders level) threads level n p)
        ∙ ap (λ k. continue k (some (run_serial env tests level (n ∷ []) p))) same
        ∙ sym (ap (continue one) (run_level_one (orders' level) 1 level n p))

module _ {W Time : Type 0} (env : Environment W Time) (no_time : Time) where
  -- When `Levels` returns levels of one test each, `Run` gives the same for any number of threads
  -- and any interleaving as it gives for one thread: the same results or exception, the same world
  -- and the same trace.
  pub run_suite-chain :
      (orders orders' : ℕ → ℕ → List ℕ) (threads : ℕ) (tests : List (TestCase (Callbacks W)))
      (names : List String) (s : Shared W)
      → levels tests ≡ some (ok (map (λ n. n ∷ []) names))
      → run_suite env no_time orders threads tests s ≡ run_suite env no_time orders' 1 tests s
  unfolding run_suite
  run_suite-chain orders orders' threads tests names s found =
      let p : Progress W Time = record { shared = s; by_name = λ n. none } in
      let finish : Option (Result (Unit {0}) × Progress W Time)
          → Option (Result (List (TestResult Time)) × Shared W) =
        λ x. elim x [
          | none ↦ none
          | some (err e, q) ↦ some (err e, q.shared)
          | some (ok _, q) ↦ some (ok (ordered no_time tests q.by_name), q.shared)
        ] in
      rw (found, run_suite) (ap finish (chain_levels env tests orders orders' threads 0 names p))
