-- ===== src/Sequencer/Run/Genuine/Levels.antt =====
-- Every level files genuine results.
use Prim.Native.String.{String}
use soc_validation_framework.Prelude.{
  ℕ, zero, suc, ◌+◌, ◌≡◌, refl, subst, List, [], ◌∷◌, Option, none, some, length, take, drop, leb,
  Bool-cases, Option-cases, inl, inr,
}
use soc_validation_framework.Bus.{Result, ok, err}
use soc_validation_framework.Sequencer.{TestCase}
use soc_validation_framework.Sequencer.RunOne.{Callbacks, run_one}
use soc_validation_framework.Sequencer.Thread.{Environment, begins, ends}
use soc_validation_framework.Sequencer.Run.{
  Progress, file, find_test, find_all, run_chunk, run_serial, run_chunks, run_level, run_levels,
}
use soc_validation_framework.Sequencer.Run.Genuine.{Way-trans}
use soc_validation_framework.Sequencer.Run.Genuine.Steps.{run_one-IsReport}
use soc_validation_framework.Sequencer.Run.Genuine.Pool.{IsReport-IsGenuine}
use soc_validation_framework.Sequencer.Run.Genuine.Filed.{
  IsGenuineRun, IsGenuineMap-later, file-IsGenuineMap, run_chunk-IsGenuineRun, find_test-known,
  FindsKnown, find_all-FindsKnown,
}

module _ {W Time : Type 0} (env : Environment W Time) (tests : List (TestCase (Callbacks W)))
    (first : W) where
  -- What a run has filed when it answers.
  unfoldable pub FilesGenuine : Option (Result (Unit {0}) × Progress W Time) → Type 0
  FilesGenuine none = Unit
  FilesGenuine (some (r, p)) = IsGenuineRun env tests first p

  serial_one :
      (level : ℕ) (n : String) (test : TestCase (Callbacks W)) (p : Progress W Time)
      → find_test test.name tests ≡ some test
      → IsGenuineRun env tests first p
      → let (r, w) =
          run_one
            (env.duration test.name)
            env.to_decimal
            env.counter
            (env.late test.name)
            test
            level
            p.shared.world in
        IsGenuineRun env tests first (record {
          shared = record { world = w; trace = ends test.name ∷ begins test.name ∷ p.shared.trace };
          by_name = file n r p.by_name;
        })
  unfolding IsGenuineRun
  serial_one level n test p known (from, all) =
      let (way, reported) = run_one-IsReport env tests first test level p.shared known from in
      (
        Way-trans tests way from,
        file-IsGenuineMap env tests first _ n _ p.by_name
            (IsReport-IsGenuine env tests first test _ _ known reported)
            (IsGenuineMap-later env tests first p.shared.world _ p.by_name way all),
      )

  run_serial-IsGenuineRun :
      (level : ℕ) (ns : List String) (p : Progress W Time)
      → IsGenuineRun env tests first p
      → IsGenuineRun env tests first (run_serial env tests level ns p).1
  unfolding run_serial
  run_serial-IsGenuineRun level [] p all = all
  run_serial-IsGenuineRun level (n ∷ ns) p all = elim (Option-cases (find_test n tests)) [
    | inl e ↦ rw (e, run_serial) all
    | inr (test, e) ↦
        rw (e, run_serial)
          (run_serial-IsGenuineRun level ns _
            (serial_one level n test p (find_test-known env tests first n test e) all))
  ]

  run_chunks-FilesGenuine :
      (fuel : ℕ) (orders : ℕ → List ℕ) (threads level start : ℕ) (ns : List String)
      (p : Progress W Time)
      → IsGenuineRun env tests first p
      → FilesGenuine (run_chunks env tests fuel orders threads level start ns p)
  unfolding FilesGenuine run_chunks
  run_chunks-FilesGenuine fuel orders threads level start [] p all = all
  run_chunks-FilesGenuine zero orders threads level start (n ∷ ns) p all = tt
  run_chunks-FilesGenuine (suc fuel) orders threads level start (n ∷ ns) p all =
      let found = find_all-FindsKnown env tests first (take threads (n ∷ ns)) in
      elim (Option-cases (find_all (take threads (n ∷ ns)) tests)) [
        | inl e ↦ rw (e, run_chunks) all
        | inr (chunk, e) ↦
            rw (e, run_chunks)
              (run_chunks-FilesGenuine fuel orders threads level (start + threads)
                (drop threads (n ∷ ns)) (run_chunk env (orders start) level chunk p)
                (run_chunk-IsGenuineRun env tests first (orders start) level chunk p
                  (unfold FindsKnown in subst (FindsKnown env tests first) e found) all))
      ]

  run_level-FilesGenuine :
      (orders : ℕ → List ℕ) (threads level : ℕ) (ns : List String) (p : Progress W Time)
      → IsGenuineRun env tests first p
      → FilesGenuine (run_level env tests orders threads level ns p)
  unfolding FilesGenuine run_level
  run_level-FilesGenuine orders threads level ns p all = elim (Bool-cases (leb threads 1)) [
    | inl e ↦ rw (e, run_level) (run_serial-IsGenuineRun level ns p all)
    | inr e ↦
        rw (e, run_level) (run_chunks-FilesGenuine (length ns) orders threads level 0 ns p all)
  ]

  -- The rest of the levels, after an answer for the first.
  run_levels-after :
      (orders : ℕ → ℕ → List ℕ) (threads level : ℕ) (names : List String)
      (rest : List (List String)) (p : Progress W Time)
      (answer : Option (Result (Unit {0}) × Progress W Time))
      → run_level env tests (orders level) threads level names p ≡ answer
      → FilesGenuine answer
      → ((p' : Progress W Time)
          → IsGenuineRun env tests first p'
          → FilesGenuine (run_levels env tests orders threads (suc level) rest p'))
      → FilesGenuine (run_levels env tests orders threads level (names ∷ rest) p)
  unfolding FilesGenuine run_levels
  run_levels-after orders threads level names rest p none e h go = rw (e, run_levels) tt
  run_levels-after orders threads level names rest p (some (err x, p')) e h go =
      rw (e, run_levels) h
  run_levels-after orders threads level names rest p (some (ok _, p')) e h go =
      rw (e, run_levels) (go p' h)

  pub run_levels-FilesGenuine :
      (orders : ℕ → ℕ → List ℕ) (threads level : ℕ) (rest : List (List String))
      (p : Progress W Time)
      → IsGenuineRun env tests first p
      → FilesGenuine (run_levels env tests orders threads level rest p)
  unfolding FilesGenuine run_levels
  run_levels-FilesGenuine orders threads level [] p all = all
  run_levels-FilesGenuine orders threads level (names ∷ rest) p all =
      run_levels-after orders threads level names rest p _ refl
        (run_level-FilesGenuine (orders level) threads level names p all)
        (λ p' h. run_levels-FilesGenuine orders threads (suc level) rest p' h)
