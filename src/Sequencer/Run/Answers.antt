-- ===== src/Sequencer/Run/Answers.antt =====
-- `Run` answers, also when `Levels` throws.
use Prim.Native.String.{String}
use soc_validation_framework.Prelude.{ℕ, ◌≡◌, ◌⊎◌, inl, inr, List, some}
use soc_validation_framework.Bus.{Exception, Result, ok, err}
use soc_validation_framework.Sequencer.{TestCase, levels}
use soc_validation_framework.Sequencer.Levels.{levels-Answer}
use soc_validation_framework.Sequencer.Suite.{IsSuite}
use soc_validation_framework.Sequencer.RunOne.{Callbacks, TestResult}
use soc_validation_framework.Sequencer.Thread.{Environment, Shared}
use soc_validation_framework.Sequencer.Run.{run_suite}
use soc_validation_framework.Sequencer.Run.Results.{unstarted, run_suite-AllReported}

-- Whatever the tests, as long as their names are their own: `Run` always answers. If `Levels`
-- throws, `Run` throws the same and no test begins; otherwise it returns results.
pub run_suite_answers :
    {W Time : Type 0} (env : Environment W Time) (no_time : Time) (orders : ℕ → ℕ → List ℕ)
    (threads : ℕ) (tests : List (TestCase (Callbacks W))) (w : W)
    → IsSuite tests
    → ((x : Exception) × (levels tests ≡ some (err x))
        × (run_suite env no_time orders threads tests (unstarted w) ≡ some (err x, unstarted w)))
      ⊎ ((rs : List (TestResult Time)) × (s : Shared W) × (run_suite env no_time orders threads
              tests
              (unstarted w)
            ≡ some (ok rs, s)))
unfolding run_suite
run_suite_answers {W} {Time} env no_time orders threads tests w suite =
    let (answer, e, whole) = levels-Answer tests in go answer e
  where
    go :
        (answer : Result (List (List String)))
        → levels tests ≡ some answer
        → ((x : Exception) × (levels tests ≡ some (err x))
            × (run_suite env no_time orders threads tests (unstarted w)
                ≡ some (err x, unstarted w)))
          ⊎ ((rs : List (TestResult Time)) × (s : Shared W) × (run_suite env no_time orders threads
                  tests
                  (unstarted w)
                ≡ some (ok rs, s)))
    go (err x) e = inl (x, e, rw (e, run_suite))
    go (ok ls) e =
        let (rs, s, answered, reported, once) =
          run_suite-AllReported env no_time orders threads tests suite ls e w in
        inr (rs, s, answered)
