-- ===== src/Sequencer/Tests.antt =====
-- Suites at concrete inputs: the register-block bring-up order, and a cycle.
use Prim.Native.String.{String}
use text.Mathlib.Text.{◌==◌ as str_eq}
use text.Mathlib.TextEquality.{eq_iff}
use soc_validation_framework.Prelude.{
  ℕ, false, ◌<◌, ◌≡◌, ◌≢◌, refl, ap, List, [], ◌∷◌, none, some, true, inl, inr, ◌⊎◌, get_elem?,
  if◌then◌else◌, arith,
}
use soc_validation_framework.Bus.{Result, ok, err, invalid_argument}
use soc_validation_framework.Sequencer.{
  TestCase, elem, set_of, levels, add, lookup, rounds, dependency_cycle, has_name,
}
use soc_validation_framework.Sequencer.Declared.{declared}
use soc_validation_framework.Sequencer.Levels.{Answer, levels-Answer}
use soc_validation_framework.Sequencer.Schedule.{levels_tight, levels_acyclic}
use soc_validation_framework.Sequencer.RunOne.{
  Ended, returned, threw, Action, Callbacks, if_set, run_one, run_one-teardown,
}
use soc_validation_framework.Sequencer.Suite.{IsSuite, IsExtended, add_lem}

abbrev test : String → List String → TestCase (Unit {0})
test name depends_on = record { name = name; depends_on = depends_on; body = tt }

abbrev suite : List (TestCase (Unit {0}))
suite = test "dma" ("id" ∷ "clock" ∷ []) ∷ test "clock" ("id" ∷ []) ∷ test "id" [] ∷ []

abbrev order : List (List String)
order = ("id" ∷ []) ∷ ("clock" ∷ []) ∷ ("dma" ∷ []) ∷ []

suite-levels : levels suite ≡ some (ok order)
unfolding levels lookup rounds
suite-levels = refl

looped : List (TestCase (Unit {0}))
looped = test "b" ("a" ∷ []) ∷ test "a" ("b" ∷ []) ∷ test "c" [] ∷ []

looped-levels : levels looped ≡ some (err (invalid_argument "dependency cycle among: a, b"))
unfolding levels looped lookup rounds dependency_cycle
looped-levels = refl

levels-Answer_example : (r : Result (List (List String))) × (levels suite ≡ some r) × Answer suite r
levels-Answer_example = levels-Answer suite

dma_needs : declared suite "dma" ≡ some ("clock" ∷ "id" ∷ [])
unfolding declared set_of
dma_needs = refl

dma_last : elem "dma" ("dma" ∷ []) ≡ true
unfolding elem
dma_last = refl

levels_tight_example :
    (x : String) × (before : List String) × (elem x ("clock" ∷ "id" ∷ []) ≡ true)
    × (get_elem? order 1 ≡ some before)
    × (elem x before ≡ true)
levels_tight_example =
    levels_tight suite order 1 ("dma" ∷ []) ("clock" ∷ "id" ∷ []) "dma" suite-levels refl dma_last
      dma_needs

rank : String → ℕ
rank n = if str_eq n "dma" then 2 else if str_eq n "clock" then 1 else 0

elem_at : (x : String) (xs ys : List String) → xs ≡ ys → elem x xs ≡ elem x ys
elem_at x xs ys e = ap (elem x) e

suite_needs :
    (n x : String) (deps : List String)
    → declared suite n ≡ some deps
    → elem x deps ≡ true
    → ((n ≡ "dma") × (x ≡ "clock")) ⊎ ((n ≡ "dma") × (x ≡ "id")) ⊎ ((n ≡ "clock") × (x ≡ "id"))
unfolding declared set_of elem
suite_needs n x deps dn dep = ground (
  arith,
  eq_iff n "dma",
  eq_iff n "clock",
  eq_iff n "id",
  eq_iff x "dma",
  eq_iff x "clock",
  eq_iff x "id",
  elem_at x deps ("clock" ∷ "id" ∷ []),
  elem_at x deps ("id" ∷ []),
  elem_at x deps [],
)

rank_falls : (n x : String) (i j : ℕ) → rank n ≡ i → rank x ≡ j → j < i → rank x < rank n
rank_falls n x i j p q lt = omega arith

suite_falls :
    (n x : String) (deps : List String)
    → declared suite n ≡ some deps
    → elem x deps ≡ true
    → (rank x < rank n) × (declared suite x ≢ none)
unfolding rank declared
suite_falls n x deps dn dep = go (suite_needs n x deps dn dep)
  where
    go :
        ((n ≡ "dma") × (x ≡ "clock")) ⊎ ((n ≡ "dma") × (x ≡ "id")) ⊎ ((n ≡ "clock") × (x ≡ "id"))
        → (rank x < rank n) × (declared suite x ≢ none)
    go (inl (p, q)) = (
      rank_falls n x 2 1 (ap rank p) (ap rank q) (omega arith),
      λ e. ground (arith, ap (declared suite) q),
    )
    go (inr (inl (p, q))) = (
      rank_falls n x 2 0 (ap rank p) (ap rank q) (omega arith),
      λ e. ground (arith, ap (declared suite) q),
    )
    go (inr (inr (p, q))) = (
      rank_falls n x 1 0 (ap rank p) (ap rank q) (omega arith),
      λ e. ground (arith, ap (declared suite) q),
    )

levels_acyclic_example : (ls : List (List String)) × (levels suite ≡ some (ok ls))
levels_acyclic_example = levels_acyclic suite rank suite_falls

suite-IsSuite : IsSuite suite
unfolding IsSuite has_name
suite-IsSuite = (
  (λ e. ground (arith, eq_iff "dma" "")),
  refl,
  (
    (λ e. ground (arith, eq_iff "clock" "")),
    refl,
    ((λ e. ground (arith, eq_iff "id" "")), refl, tt),
  ),
)

abbrev irq : TestCase (Unit {0})
irq = test "irq" ("dma" ∷ [])

add_lem_example :
    ((irq.name ≡ "") × (add irq suite ≡ err (invalid_argument "test name must not be empty")))
    ⊎ ((has_name irq.name suite ≡ true)
        × (add irq suite ≡ err (invalid_argument "duplicate test name: irq")))
    ⊎ ((more : List (TestCase (Unit {0}))) × (add irq suite ≡ ok more) × IsExtended irq suite more)
add_lem_example = add_lem irq suite suite-IsSuite

-- Callbacks that note in the world that they ran.
abbrev note : String → Ended → Action (List String)
note what e w = (e, what ∷ w)

abbrev failing : TestCase (Callbacks (List String))
failing = record {
  name = "dma";
  depends_on = [];
  body = record {
    setup = some (note "setup" returned);
    run = note "body" (threw "timeout");
    teardown = some (note "teardown" returned);
    timeout = 30000;
  };
}

abbrev elapsed : ℕ
elapsed = 12

run_one-teardown_example :
    (returned ≡ returned
      × ((run_one elapsed (λ n. "30000") (λ w. 0) false failing 1 []).1
          ≡ "teardown" ∷ "body" ∷ "setup" ∷ []))
    ⊎ (returned ≢ returned
        × ((run_one elapsed (λ n. "30000") (λ w. 0) false failing 1 []).1 ≡ "setup" ∷ []))
unfolding if_set
run_one-teardown_example = run_one-teardown elapsed (λ n. "30000") (λ w. 0) false failing 1 []
