-- ===== src/Sequencer/Run/Drain.antt =====
-- Waiting for the futures of a chunk: every thread ends, in the order in which they are waited for.
use Prim.Native.String.{String}
use soc_validation_framework.Prelude.{
  ℕ, zero, suc, ◌+◌, ◌-◌, ◌≤◌, ◌≡◌, refl, ◌∙◌, ap₂, subst, true, List, [], ◌∷◌, length, arith,
}
use soc_validation_framework.Sequencer.{TestCase, elem}
use soc_validation_framework.Sequencer.RunOne.{
  Callbacks, Ended, returned, threw, threw_unknown, if_set,
}
use soc_validation_framework.Sequencer.Thread.{
  Environment, Phase, waiting, counted, prepared, ran, over, finished, Thread, Shared, after_setup,
  advance, step, steps, complete,
}
use soc_validation_framework.Sequencer.Run.{interleave, drain, run_threads}
use soc_validation_framework.Sequencer.Run.Trace.{
  active, IsFinished, IsSettled, IsSettled-mono, IsSteady, Ready, IsStep, step_lem,
}
use soc_validation_framework.Sequencer.Run.Pool.{
  active-finished, actives, actives-le, plan, AllFinished, AllFit, AllFit-mono, IsAdvance,
  IsAdvance-trans, length-same, interleave-IsAdvance,
}

module _ {Time : Type 0} where
  remaining : Phase Time → ℕ
  remaining waiting = 5
  remaining (counted before) = 4
  remaining (prepared before) = 3
  remaining (ran before e) = 2
  remaining (over before e) = 1
  remaining (finished r) = 0

  nothing_remaining : (p : Phase Time) → remaining p ≡ 0 → IsFinished p
  unfolding remaining IsFinished
  nothing_remaining (finished r) e = tt
  nothing_remaining waiting e = omega arith
  nothing_remaining (counted before) e = omega arith
  nothing_remaining (prepared before) e = omega arith
  nothing_remaining (ran before e) h = omega arith
  nothing_remaining (over before e) h = omega arith

module _ {Time : Type 0} where
  remaining-le : (p : Phase Time) → remaining p ≤ 5
  unfolding remaining
  remaining-le waiting = omega arith
  remaining-le (counted before) = omega arith
  remaining-le (prepared before) = omega arith
  remaining-le (ran before e) = omega arith
  remaining-le (over before e) = omega arith
  remaining-le (finished r) = omega arith

module _ (Time : Type 0) where
  remaining-after_setup :
      (before : ℕ) (e : Ended) → remaining {Time = Time} (after_setup before e) ≤ 3
  unfolding remaining after_setup
  remaining-after_setup before returned = omega arith
  remaining-after_setup before (threw what) = omega arith
  remaining-after_setup before threw_unknown = omega arith

module _ {W Time : Type 0} (env : Environment W Time) (needs : String → List String)
    (limit : ℕ) where
  remaining-step :
      (test : TestCase (Callbacks W)) (level : ℕ) (phase : Phase Time) (s : Shared W)
      → remaining (step env (record { test = test; level = level; phase = phase }) s).0.phase
        ≤ remaining phase - 1
  unfolding step advance remaining
  remaining-step test level waiting s = omega arith
  remaining-step test level (counted before) s =
      omega (arith, remaining-after_setup Time before (if_set test.body.setup s.world).0)
  remaining-step test level (prepared before) s = omega arith
  remaining-step test level (ran before e) s = omega arith
  remaining-step test level (over before e) s = omega arith
  remaining-step test level (finished r) s = omega arith

  -- `steps` on one thread, as an advance of a pool of one.
  steps-IsAdvance :
      (n : ℕ) (t : Thread W Time) (s : Shared W) (others : ℕ)
      → others + 1 ≤ limit
      → IsSteady needs limit (others + active t.phase) s.trace
      → Ready needs t.test.name s.trace
      → IsSettled t.test.name t.level s.trace t.phase
      → remaining t.phase ≤ n
      → IsStep env needs limit others s.trace (steps env n t s)
        × ((steps env n t s).0.test ≡ t.test)
        × ((steps env n t s).0.level ≡ t.level)
        × IsFinished (steps env n t s).0.phase
  unfolding steps
  steps-IsAdvance zero t s others room steady ready settled few = (
    record { steady = steady; settled = settled; grows = λ x e. e },
    refl,
    refl,
    nothing_remaining t.phase (omega arith),
  )
  steps-IsAdvance (suc n) t s others room steady ready settled few =
      let one =
        step_lem env needs limit t.test t.level others t.phase s room steady ready settled in
      let (t', s') = step env t s in
      let same : t'.test ≡ t.test = unfold step in refl in
      let level : t'.level ≡ t.level = unfold step in refl in
      let ready' : Ready needs t'.test.name s'.trace =
        unfold step in (λ x e. one.grows x (ready x e)) in
      let (more, test, level', done) =
        steps-IsAdvance n t' s' others room one.steady ready' one.settled
          (omega (arith, remaining-step t.test t.level t.phase s)) in
      (
        record {
          steady = more.steady;
          settled = more.settled;
          grows = λ x e. more.grows x (one.grows x e);
        },
        test ∙ same,
        level' ∙ level,
        done,
      )

  pub drain-IsAdvance :
      (ts : List (Thread W Time)) (s : Shared W) (others : ℕ)
      → others + length ts ≤ limit
      → IsSteady needs limit (others + actives ts) s.trace
      → AllFit needs ts s.trace
      → IsAdvance env needs limit others ts s.trace (drain env ts s)
        × AllFinished (drain env ts s).0
  unfolding drain complete actives plan AllFit AllFinished
  drain-IsAdvance [] s others room steady fit =
      (record { steady = steady; fit = fit; grows = λ x e. e; same = refl }, tt)
  drain-IsAdvance (t ∷ ts) s others room steady ((ready, settled), fit) =
      let around : others + (active t.phase + actives ts) ≡ others + actives ts + active t.phase =
        omega arith in
      let (one, test, level, done) =
        steps-IsAdvance 5 t s (others + actives ts) (omega (arith, actives-le ts))
          (subst (λ m. IsSteady needs limit m s.trace) around steady) ready settled
          (remaining-le t.phase) in
      let (t', s') = steps env 5 t s in
      let still : active t'.phase ≡ 0 = active-finished t'.phase done in
      let alone : others + actives ts + active t'.phase ≡ others + actives ts = omega arith in
      let (rest, all) =
        drain-IsAdvance ts s' others (omega arith)
          (subst (λ m. IsSteady needs limit m s'.trace) alone one.steady)
          (AllFit-mono needs ts s.trace s'.trace one.grows fit) in
      let (ts', s'') = drain env ts s' in
      let back : others + actives ts' ≡ others + (active t'.phase + actives ts') = omega arith in
      (
        record {
          steady = subst (λ m. IsSteady needs limit m s''.trace) back rest.steady;
          fit = (
            (
              (λ x e.
                  rest.grows x
                    (one.grows x (ready x (subst (λ u. elem x (needs u.name) ≡ true) test e)))),
              IsSettled-mono t'.test.name t'.level s'.trace s''.trace t'.phase rest.grows
                  one.settled,
            ),
            rest.fit,
          );
          grows = λ x e. rest.grows x (one.grows x e);
          same =
              ap₂ (λ (x : TestCase (Callbacks W) × ℕ) l. x ∷ l) (ap₂ (λ u k. (u, k)) test level)
                rest.same;
        },
        (done, all),
      )

  -- A chunk that has been launched, interleaved in any order and waited for.
  pub run_threads-IsAdvance :
      (order : List ℕ) (ts : List (Thread W Time)) (s : Shared W) (others : ℕ)
      → others + length ts ≤ limit
      → IsSteady needs limit (others + actives ts) s.trace
      → AllFit needs ts s.trace
      → IsAdvance env needs limit others ts s.trace (run_threads env order ts s)
        × AllFinished (run_threads env order ts s).0
  unfolding run_threads
  run_threads-IsAdvance order ts s others room steady fit =
      let a = interleave-IsAdvance env needs limit order ts s others room steady fit in
      let (ts', s') = interleave env order ts s in
      let (rest, all) =
        drain-IsAdvance ts' s' others (omega (arith, length-same env needs limit ts ts' a.same))
          a.steady a.fit in
      (IsAdvance-trans env needs limit ts' a.grows a.same rest, all)
