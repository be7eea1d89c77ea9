-- ===== src/Sequencer/Run/InOrder.antt =====
-- A suite in which each test waits for the one before it: `Run` calls them one after the other.
use Prim.Native.String.{String}
use text.Mathlib.TextEquality.{eq_iff}
use soc_validation_framework.Prelude.{
  ℕ, suc, ◌≡◌, refl, ◌∙◌, ap, List, [], ◌∷◌, map, some, none, false, arith,
}
use soc_validation_framework.Bus.{ok}
use soc_validation_framework.Sequencer.{TestCase, levels, has_name}
use soc_validation_framework.Sequencer.Suite.{IsSuite}
use soc_validation_framework.Sequencer.RunOne.{Callbacks, TestResult, run_one}
use soc_validation_framework.Sequencer.Thread.{Environment, Shared}
use soc_validation_framework.Sequencer.Run.{
  find_test, Progress, file, run_levels, ordered, run_suite,
}
use soc_validation_framework.Sequencer.Run.Results.{ordered-cons}
use soc_validation_framework.Sequencer.Run.Chain.{
  filed, continue, run_serial-found, run_level_one, run_suite-chain,
}

module _ {W : Type 0} where
  unfoldable pub singles : List (TestCase (Callbacks W)) → List String
  singles [] = []
  singles (t ∷ ts) = t.name ∷ singles ts

  -- Each of the tests is the one that its name finds.
  unfoldable pub AllFound : List (TestCase (Callbacks W)) → List (TestCase (Callbacks W)) → Type 0
  AllFound tests [] = Unit
  AllFound tests (t ∷ ts) = (find_test t.name tests ≡ some t) × AllFound tests ts

module _ {W Time : Type 0} (env : Environment W Time) where
  abbrev pub one_result : ℕ → TestCase (Callbacks W) → W → TestResult Time × W
  one_result level test w =
      run_one (env.duration test.name) env.to_decimal env.counter (env.late test.name) test level w

  -- One test after the other, each in a level of its own.
  unfoldable pub in_order : ℕ → List (TestCase (Callbacks W)) → W → List (TestResult Time) × W
  in_order level [] w = ([], w)
  in_order level (t ∷ ts) w =
      let (r, w') = one_result level t w in
      let (rs, w'') = in_order (suc level) ts w' in (r ∷ rs, w'')

  module _ (no_time : Time) (orders : ℕ → ℕ → List ℕ) (tests : List (TestCase (Callbacks W))) where
    pub record IsInOrder (level : ℕ) (ts : List (TestCase (Callbacks W))) (p q : Progress W Time)
        : Type 0 where
      pub world : q.shared.world ≡ (in_order level ts p.shared.world).1
      pub apart : (n : String) → has_name n ts ≡ false → q.by_name n ≡ p.by_name n
      pub results : ordered no_time ts q.by_name ≡ (in_order level ts p.shared.world).0

    run_levels-IsInOrder :
        (ts : List (TestCase (Callbacks W))) (level : ℕ) (p : Progress W Time)
        → AllFound tests ts
        → IsSuite ts
        → (q : Progress W Time) × (run_levels env tests orders 1 level
              (map (λ n. n ∷ []) (singles ts))
              p
            ≡ some (ok tt, q))
          × IsInOrder level ts p q
    unfolding run_levels AllFound IsSuite singles in_order has_name filed file
    run_levels-IsInOrder [] level p found suite =
        (p, refl, record { world = refl; apart = λ n e. refl; results = unfold ordered in refl })
    run_levels-IsInOrder (t ∷ ts) level p (here, found) (named, new, suite) =
        let p1 = filed env t.name level t p in
        let (q, e, s) = run_levels-IsInOrder ts (suc level) p1 found suite in
        let first =
          run_level_one env tests (orders level) 1 level t.name p
          ∙ ap some (run_serial-found env tests level t.name t p here) in
        let rest = run_levels env tests orders 1 (suc level) (map (λ n. n ∷ []) (singles ts)) in
        let mine : q.by_name t.name ≡ some (one_result level t p.shared.world).0 =
          s.apart t.name new ∙ ground (arith, eq_iff t.name t.name) in
        (
          q,
          ap (continue env tests rest) first ∙ e,
          record {
            world = s.world;
            apart = λ n out.
                s.apart n (ground arith) ∙ ground (arith, eq_iff n t.name, eq_iff t.name n);
            results =
                ordered-cons no_time [] t ts _ q.by_name mine
                ∙ ap (λ rs. (one_result level t p.shared.world).0 ∷ rs) s.results;
          },
        )

module _ {W Time : Type 0} (env : Environment W Time) (no_time : Time) where
  -- When `Levels` puts each test in a level of its own, in the order of registration, every test has
  -- a name of its own and each name finds its test, `Run` returns the results of `RunOne` on the
  -- tests one after the other, and leaves the world that they leave, whatever the number of threads
  -- and the interleaving.
  pub run_suite-in_order :
      (orders : ℕ → ℕ → List ℕ) (threads : ℕ) (tests : List (TestCase (Callbacks W))) (s : Shared W)
      → AllFound tests tests
      → IsSuite tests
      → levels tests ≡ some (ok (map (λ n. n ∷ []) (singles tests)))
      → (s' : Shared W) × (run_suite env no_time orders threads tests s
          ≡ some (ok (in_order env 0 tests s.world).0, s'))
        × (s'.world ≡ (in_order env 0 tests s.world).1)
  unfolding run_suite
  run_suite-in_order orders threads tests s found suite ls =
      let p : Progress W Time = record { shared = s; by_name = λ n. none } in
      let (q, e, i) = run_levels-IsInOrder env no_time orders tests tests 0 p found suite in
      (
        q.shared,
        run_suite-chain env no_time orders orders threads tests (singles tests) s ls
            ∙ rw (ls, e, run_suite) (ap (λ rs. some (ok rs, q.shared)) i.results),
        i.world,
      )
