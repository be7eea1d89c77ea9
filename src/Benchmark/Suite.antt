-- ===== src/Benchmark/Suite.antt =====
-- benchmarks/bench_main.cpp: `BuildSuite`, with the number of its independent tests as an argument.
pub mod Built
pub mod Pass
use Prim.Native.String.{String, ◌++◌ as str_append}
use soc_validation_framework.Prelude.{ℕ, zero, suc, List, [], ◌∷◌, none}
use soc_validation_framework.Bus.{
  Exception, transport_error, invalid_argument, out_of_range, runtime_error, undefined_access,
  Result, ok, err,
}
use soc_validation_framework.Sequencer.{TestCase, add}
use soc_validation_framework.Sequencer.RunOne.{
  outcome_of, Ended, returned, threw, threw_unknown, Callbacks,
}
use soc_validation_framework.Benchmark.{workload}

-- `to_decimal` is `std::to_string`.
abbrev pub case_name : (ℕ → String) → ℕ → String
case_name to_decimal i = str_append "dma_case_" (to_decimal i)

module _ (W : Type 0) where
  -- `Workload` has a device of its own and leaves the world alone.
  abbrev pub callbacks : Callbacks W
  callbacks = record {
    setup = none;
    run = λ w. (outcome_of workload, w);
    teardown = none;
    timeout = 10000;
  }

  abbrev pub bench_case : String → List String → TestCase (Callbacks W)
  bench_case name depends_on = record { name = name; depends_on = depends_on; body = callbacks }

  module _ (to_decimal : ℕ → String) where
    -- The loop from `i` on.
    unfoldable pub add_cases :
        (left i : ℕ) → List (TestCase (Callbacks W)) → Result (List (TestCase (Callbacks W)))
    add_cases zero i suite = ok suite
    add_cases (suc left) i suite =
        elim (add (bench_case (case_name to_decimal i) ("link_up" ∷ "dma_reset" ∷ [])) suite) [
          | err e ↦ err e
          | ok more ↦ add_cases left (suc i) more
        ]

    unfoldable pub build_suite : ℕ → Result (List (TestCase (Callbacks W)))
    unfolding add_cases
    build_suite tests = elim (add (bench_case "link_up" []) []) [
      | err e ↦ err e
      | ok one ↦ elim (add (bench_case "dma_reset" []) one) [
        | err e ↦ err e
        | ok two ↦ add_cases tests 0 two
      ]
    ]
