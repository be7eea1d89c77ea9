-- ===== src/Benchmark/Tests.antt =====
-- The benchmark's workloads at concrete inputs.
use Prim.Native.String.{String}
use text.Mathlib.TextLemmas.{cons≢nil, tail-eq_of_cons-eq}
use soc_validation_framework.Prelude.{
  ℕ, zero, suc, ◌+◌, ◌*◌, ◌/◌, ◌^◌, ◌<◌, ◌≡◌, refl, sym, ap, List, [], ◌∷◌, some, false, min, max,
  ltb, length, if◌then◌else◌, arith,
}
use soc_validation_framework.Bus.{ok}
use soc_validation_framework.Device
use soc_validation_framework.Device.{EmulatedDevice, emulated, set_transfer_latency}
use soc_validation_framework.Device.Policy
use soc_validation_framework.Device.Status.{beats_of}
use soc_validation_framework.Device.Valid.{IsValid, new-IsValid}
use soc_validation_framework.Protocol.{Double}
use soc_validation_framework.Sequencer.{TestCase}
use soc_validation_framework.Sequencer.RunOne.{Callbacks, TestResult}
use soc_validation_framework.Sequencer.Thread.{Environment, Shared}
use soc_validation_framework.Sequencer.Run.{run_suite}
use soc_validation_framework.Sequencer.Run.Results.{unstarted}
use soc_validation_framework.Benchmark.{transfer, benchmark_naive, benchmark_coalesced}
use soc_validation_framework.Benchmark.Polling.{transfer_outcome}
use soc_validation_framework.Benchmark.Reads.{expected, benchmark_reads}
use soc_validation_framework.Benchmark.Suite.{build_suite}
use soc_validation_framework.Benchmark.Suite.Pass.{AllPassed, build_suite_passes}

-- A device with a latency of four, which three polls do not reach.
abbrev slow : EmulatedDevice
slow = set_transfer_latency 4 Device.new

slow-IsValid : IsValid slow
unfolding set_transfer_latency
slow-IsValid = record {
  words = new-IsValid.words;
  clock = new-IsValid.clock;
  busy = new-IsValid.busy;
  rest = new-IsValid.rest;
  link = new-IsValid.link;
}

slow_latency : slow.latency ≡ 4
unfolding set_transfer_latency
slow_latency = refl

slow_idle : slow.dma_running ≡ false
unfolding set_transfer_latency Device.new
slow_idle = refl

slow_time : slow.ticks + 1 + slow.latency + 1 < 2 ^ 64
unfolding set_transfer_latency Device.new
slow_time = omega arith

transfer_outcome_example :
    let r = transfer emulated 3 slow in
    let early = ltb 3 (max 1 slow.latency) in
    (r.0 ≡ ok tt)
    × (r.1.ticks ≡ slow.ticks + 1 + min 3 (max 1 slow.latency))
    × (r.1.dma_running ≡ early)
    × (r.1.storage Policy.dma_status
        ≡ (if early then 2 else 5 + beats_of (slow.storage Policy.dma_xfer_len) * 256))
transfer_outcome_example = transfer_outcome 3 slow slow-IsValid slow_idle slow_time

-- Whole numbers for `double`.
abbrev whole : Double
whole = record {
  Value = ℕ;
  of_ℕ = λ n. n;
  scaled = λ m k. m / 10 ^ k;
  plus = λ a b. a + b;
  times = λ a b. a * b;
  divide = λ a b. a / b;
}

benchmark_reads_example :
    (benchmark_naive whole 3 ≡ ok (expected whole 3 12))
    × (benchmark_coalesced whole 3 ≡ ok (expected whole 3 3))
benchmark_reads_example = benchmark_reads whole 3

-- A number in strokes.
strokes : ℕ → String
strokes zero = ""
strokes (suc n) = String.◌∷◌ "1" (strokes n)

strokes-differ : (i j : ℕ) → strokes i ≡ strokes j → i ≡ j
unfolding strokes
strokes-differ zero zero e = refl
strokes-differ zero (suc j) e = absurd (cons≢nil (sym e))
strokes-differ (suc i) zero e = absurd (cons≢nil e)
strokes-differ (suc i) (suc j) e = ap suc (strokes-differ i j (tail-eq_of_cons-eq e))

abbrev quiet : Environment (List String) ℕ
quiet = record { late = λ n. false; duration = λ n. 4; to_decimal = strokes; counter = λ w. 0 }

abbrev turns : ℕ → ℕ → List ℕ
turns level start = 1 ∷ 0 ∷ 1 ∷ 0 ∷ []

build_suite_passes_example :
    (tests : List (TestCase (Callbacks (List String)))) × (rs : List (TestResult ℕ)) × (s : Shared
      (List String))
    × (build_suite (List String) strokes 3 ≡ ok tests)
    × (length tests ≡ 5)
    × (run_suite quiet 0 turns 2 tests (unstarted []) ≡ some (ok rs, s))
    × AllPassed tests rs
build_suite_passes_example =
    build_suite_passes quiet 0 turns 2 [] strokes 3 strokes-differ (λ m. refl)
