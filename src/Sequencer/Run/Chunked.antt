-- ===== src/Sequencer/Run/Chunked.antt =====
-- A level run in chunks of threads.
use Prim.Native.String.{String}
use soc_validation_framework.Prelude.{
  ℕ, zero, suc, ◌+◌, ◌≤◌, ◌≡◌, refl, sym, ◌∙◌, ap, subst, Bool, ◌||◌, List, [], ◌∷◌, some,
  get_elem?, length, take, drop, arith,
}
use soc_validation_framework.Bus.{ok}
use soc_validation_framework.Sequencer.{TestCase, elem}
use soc_validation_framework.Sequencer.RunOne.{Callbacks}
use soc_validation_framework.Sequencer.Thread.{Environment}
use soc_validation_framework.Sequencer.Run.{Progress, start, find_all, run_chunk, run_chunks}
use soc_validation_framework.Sequencer.Counts.{count}
use soc_validation_framework.Sequencer.Run.Chunks.{IsKept, IsKept-mono, AllCan, run_chunk-IsKept}
use soc_validation_framework.Sequencer.Run.Found.{
  count-take-drop, AllFound, elem-take, elem-drop, later_or_now, length-take_le, length-drop_le,
  AllFound-sub, length-test_names, find_all_lem, AllCan-sub,
}

all_counted :
    (x : String) (k : ℕ) (all : List String) (t : ℕ)
    → count x (drop k all) + (count x (take k all) + t) ≡ count x all + t
all_counted x k all t = omega (arith, count-take-drop x k all)

module _ {W Time : Type 0} (env : Environment W Time) (needs : String → List String) (limit : ℕ)
    (ls : List (List String)) (tests : List (TestCase (Callbacks W))) (level : ℕ)
    (holds : List String) (at_level : get_elem? ls level ≡ some holds) where
  run_chunks-step :
      (fuel : ℕ) (orders : ℕ → List ℕ) (threads start : ℕ) (n : String) (ns : List String)
      (p : Progress W Time) (chunk : List (TestCase (Callbacks W)))
      → find_all (take threads (n ∷ ns)) tests ≡ some chunk
      → run_chunks env tests (suc fuel) orders threads level start (n ∷ ns) p
        ≡ run_chunks env tests fuel orders threads level
            (start + threads)
            (drop threads (n ∷ ns))
            (run_chunk env (orders start) level chunk p)
  unfolding run_chunks
  run_chunks-step fuel orders threads start n ns p chunk e = rw (e, run_chunks)

  pub run_chunks-IsKept :
      (fuel : ℕ) (orders : ℕ → List ℕ) (threads start : ℕ) (ns : List String) (done : String → Bool)
      (tally : String → ℕ) (p : Progress W Time)
      → length ns ≤ fuel
      → suc threads ≤ limit
      → AllFound tests ns
      → AllCan needs done holds ns
      → IsKept needs limit ls done tally p
      → (p' : Progress W Time) × (run_chunks env tests fuel orders (suc threads) level start ns p
          ≡ some (ok tt, p'))
        × IsKept needs limit ls (λ x. elem x ns || done x) (λ x. count x ns + tally x) p'
  unfolding run_chunks elem count
  run_chunks-IsKept fuel orders threads start [] done tally p room fits found can k = (
    p,
    refl,
    IsKept-mono needs limit ls done done tally (λ x. 0 + tally x) p (λ x h. h) (λ x. omega arith) k,
  )
  run_chunks-IsKept zero orders threads start (n ∷ ns) done tally p room fits found can k =
      absurd (omega arith)
  run_chunks-IsKept (suc fuel) orders threads start (n ∷ ns) done tally p room fits found can k =
      let all = n ∷ ns in
      let now = take (suc threads) all in
      let later = drop (suc threads) all in
      let after = λ (x : String). elem x now || done x in
      let counted = λ (x : String). count x now + tally x in
      let (chunk, e, same) =
        find_all_lem tests now
          (AllFound-sub tests now all (λ x. elem-take x (suc threads) all) found) in
      let few : length chunk ≤ limit =
        omega (arith, length-test_names chunk, ap length same, length-take_le (suc threads) all) in
      let can_now =
        AllCan-sub needs done done holds now all (λ x. elem-take x (suc threads) all) (λ x h. h)
          can in
      let ran =
        run_chunk-IsKept env needs limit ls level holds at_level (orders start) chunk done tally p
          few (subst (AllCan needs done holds) (sym same) can_now) k in
      let (p', e', k'') =
        run_chunks-IsKept fuel orders threads (start + suc threads) later after counted
          (run_chunk env (orders start) level chunk p) (omega (arith, length-drop_le threads ns))
          fits (AllFound-sub tests later all (λ x. elem-drop x (suc threads) all) found)
          (AllCan-sub needs done after holds later all (λ x. elem-drop x (suc threads) all)
            (λ x h. ground arith) can)
          (subst
            (λ ms.
              IsKept needs limit ls (λ x. elem x ms || done x) (λ x. count x ms + tally x)
                (run_chunk env (orders start) level chunk p))
            same ran) in
      (
        p',
        run_chunks-step fuel orders (suc threads) start n ns p chunk e ∙ e',
        IsKept-mono needs limit ls (λ x. elem x later || after x) (λ x. elem x all || done x)
            (λ x. count x later + counted x) (λ x. count x all + tally x) p'
            (λ x. later_or_now x (suc threads) all (done x))
            (λ x. all_counted x (suc threads) all (tally x)) k'',
      )
