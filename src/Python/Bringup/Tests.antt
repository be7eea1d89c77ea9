-- ===== src/Python/Bringup/Tests.antt =====
-- The bring-up example as it stands: a latency of 6 and 50 polls, on four threads.
use soc_validation_framework.Prelude.{
  ℕ, ◌*◌, ◌≡◌, refl, List, [], ◌∷◌, some, false, length, map, arith,
}
use soc_validation_framework.Bus.{ok}
use soc_validation_framework.Sequencer.{TestCase}
use soc_validation_framework.Sequencer.RunOne.{Callbacks, TestResult, pass}
use soc_validation_framework.Sequencer.Thread.{Environment, Shared}
use soc_validation_framework.Sequencer.Run.{run_suite}
use soc_validation_framework.Sequencer.Run.Results.{unstarted}
use soc_validation_framework.Python.Bringup.{LoggedDevice, session, bringup}
use soc_validation_framework.Python.Bringup.Passes.{bringup_passes}

abbrev clock : ℕ → ℕ
clock k = 100 * k

abbrev quick : Environment (LoggedDevice clock) ℕ
quick = record { late = λ n. false; duration = λ n. 1; to_decimal = λ n. "30000"; counter = λ w. 0 }

abbrev turns : ℕ → ℕ → List ℕ
turns level start = 0 ∷ 0 ∷ 0 ∷ []

bringup_passes_example :
    (tests : List (TestCase (Callbacks (LoggedDevice clock)))) × (rs : List (TestResult ℕ))
    × (s : Shared (LoggedDevice clock)) × (bringup clock 50 ≡ ok tests)
    × (run_suite quick 0 turns 4 tests (unstarted (session 6)) ≡ some (ok rs, s))
    × (map (λ r. r.status) rs ≡ pass ∷ pass ∷ pass ∷ [])
    × (length s.world.log.records ≡ 8)
    × (s.world.inner.dma_running ≡ false)
bringup_passes_example = bringup_passes clock quick (λ n. refl) 0 turns 4 6 50 (omega arith)
