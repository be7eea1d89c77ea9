-- ===== src/Sequencer/Run/Whole.antt =====
-- The loop over the levels.
use Prim.Native.String.{String}
use soc_validation_framework.Prelude.{
  ℕ, zero, suc, ◌+◌, max, ◌≡◌, refl, ◌∙◌, ap, Bool, true, false, ◌||◌, List, [], ◌∷◌, ◌++◌, none,
  some, leb, length, get_elem?, arith,
}
use soc_validation_framework.Bus.{ok}
use soc_validation_framework.Sequencer.{TestCase, elem}
use soc_validation_framework.Sequencer.Counts.{count, bit, elem-counted, elem-append}
use soc_validation_framework.Sequencer.Layers.{is_due, IsLayered}
use soc_validation_framework.Sequencer.Declared.{declared}
use soc_validation_framework.Sequencer.Order.{occurrences}
use soc_validation_framework.Sequencer.Suite.{IsSuite}
use soc_validation_framework.Sequencer.RunOne.{Callbacks}
use soc_validation_framework.Sequencer.Thread.{Environment}
use soc_validation_framework.Sequencer.Run.{Progress, run_level, run_levels}
use soc_validation_framework.Sequencer.Run.Chunks.{IsKept, IsKept-mono, AllCan}
use soc_validation_framework.Sequencer.Run.Found.{AllFound}
use soc_validation_framework.Sequencer.Run.Chunked.{run_chunks-IsKept}
use soc_validation_framework.Sequencer.Run.Serial.{run_serial-IsKept}
use soc_validation_framework.Sequencer.Run.Needs.{needs, due_can}

module _ {W Time : Type 0} (env : Environment W Time) (tests : List (TestCase (Callbacks W)))
    (ls : List (List String)) where
  run_level-IsKept :
      (orders : ℕ → List ℕ) (threads level : ℕ) (holds : List String) (done : String → Bool)
      (tally : String → ℕ) (p : Progress W Time)
      → get_elem? ls level ≡ some holds
      → AllFound tests holds
      → AllCan (needs tests) done holds holds
      → IsKept (needs tests) (max 1 threads) ls done tally p
      → (p' : Progress W Time) × (run_level env tests orders threads level holds p
          ≡ some (ok tt, p'))
        × IsKept
            (needs tests)
            (max 1 threads)
            ls
            (λ x. elem x holds || done x)
            (λ x. count x holds + tally x)
            p'
  unfolding run_level
  run_level-IsKept orders zero level holds done tally p at_level found can k =
      let (p', e, k') =
        run_serial-IsKept env (needs tests) (max 1 0) ls tests level holds at_level holds done tally
          p (omega arith) found can k in
      (p', ap some e, k')
  run_level-IsKept orders (suc zero) level holds done tally p at_level found can k =
      let (p', e, k') =
        run_serial-IsKept env (needs tests) (max 1 1) ls tests level holds at_level holds done tally
          p (omega arith) found can k in
      (p', ap some e, k')
  run_level-IsKept orders (suc (suc more)) level holds done tally p at_level found can k =
      let threads = suc (suc more) in
      let many : leb threads 1 ≡ false = ground arith in
      let (p', e, k') =
        run_chunks-IsKept env (needs tests) (max 1 threads) ls tests level holds at_level
          (length holds) orders (suc more) 0 holds done tally p (omega arith) (omega arith) found
          can k in
      (p', rw (many, run_level) e, k')

  -- The names of a level are due after the earlier ones.
  level_can :
      (done holds : List String)
      → IsSuite tests
      → ((n : String) → count n holds ≡ bit (is_due (declared tests) done n))
      → AllFound tests holds × AllCan (needs tests) (λ x. elem x done) holds holds
  unfolding AllFound AllCan bit
  level_can done holds suite due =
      let due_now = λ (n : String) (h : elem n holds ≡ true).
        let now : is_due (declared tests) done n ≡ true =
          ground (arith, due n, elem-counted n holds) in
        now in
      (
        (λ n h. (due_can tests done n suite (due_now n h)).0),
        (λ n h. (h, (due_can tests done n suite (due_now n h)).1)),
      )

  run_levels-next :
      (orders : ℕ → ℕ → List ℕ) (threads level : ℕ) (holds : List String)
      (rest : List (List String)) (p p' : Progress W Time)
      → run_level env tests (orders level) threads level holds p ≡ some (ok tt, p')
      → run_levels env tests orders threads level (holds ∷ rest) p
        ≡ run_levels env tests orders threads (suc level) rest p'
  unfolding run_levels
  run_levels-next orders threads level holds rest p p' e = rw (e, run_levels)

  pub run_levels-IsKept :
      (orders : ℕ → ℕ → List ℕ) (threads level : ℕ) (rest : List (List String)) (done : List String)
      (tally : String → ℕ) (p : Progress W Time)
      → IsSuite tests
      → ((i : ℕ) → get_elem? ls (i + level) ≡ get_elem? rest i)
      → IsLayered (declared tests) done rest
      → IsKept (needs tests) (max 1 threads) ls (λ x. elem x done) tally p
      → (p' : Progress W Time) × (all : List String) × (run_levels env tests orders threads level
            rest p
          ≡ some (ok tt, p'))
        × IsKept
            (needs tests)
            (max 1 threads)
            ls
            (λ x. elem x all)
            (λ x. occurrences x rest + tally x)
            p'
        × ((n : String) → elem n all ≡ false → declared tests n ≡ none)
  unfolding IsLayered occurrences
  run_levels-IsKept orders threads level [] done tally p suite here layered k = (
    p,
    done,
    unfold run_levels in refl,
    IsKept-mono (needs tests) (max 1 threads) ls (λ x. elem x done) (λ x. elem x done) tally
        (λ x. 0 + tally x) p (λ x h. h) (λ x. omega arith) k,
    layered,
  )
  run_levels-IsKept orders threads level (holds ∷ rest) done tally p suite here (due, layered) k =
      let (found, can) = level_can done holds suite due in
      let at_level : get_elem? ls level ≡ some holds = ap (get_elem? ls) (omega arith) ∙ here 0 in
      let (p', e, k') =
        run_level-IsKept (orders level) threads level holds (λ x. elem x done) tally p at_level
          found can k in
      let counted = λ (x : String). count x holds + tally x in
      let kept =
        IsKept-mono (needs tests) (max 1 threads) ls (λ x. elem x holds || elem x done)
          (λ x. elem x (holds ++ done)) counted counted p'
          (λ x h. ground (arith, elem-append x holds done)) (λ x. refl) k' in
      let (p'', all, e', k'', complete) =
        run_levels-IsKept orders threads (suc level) rest (holds ++ done) counted p' suite
          (λ i. ap (get_elem? ls) (omega arith) ∙ here (suc i)) layered kept in
      (
        p'',
        all,
        run_levels-next orders threads level holds rest p p' e ∙ e',
        IsKept-mono (needs tests) (max 1 threads) ls (λ x. elem x all) (λ x. elem x all)
            (λ x. occurrences x rest + counted x) (λ x. occurrences x (holds ∷ rest) + tally x) p''
            (λ x h. h) (λ x. omega arith) k'',
        complete,
      )
