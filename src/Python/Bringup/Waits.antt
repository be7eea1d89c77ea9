-- ===== src/Python/Bringup/Waits.antt =====
-- `wait_for_done` on a logged device whose transfer runs.
use soc_validation_framework.Prelude.{
  ℕ, zero, suc, ◌+◌, ◌*◌, ◌^◌, ◌<◌, ◌≤◌, ◌==◌, min, max, ltb, length, ◌≡◌, refl, sym, subst, ◌∙◌,
  ap, List, [], ◌∷◌, ◌++◌, if◌then◌else◌, arith,
}
use soc_validation_framework.Bus.{Result, ok, err}
use soc_validation_framework.Device.{emulated, tick}
use soc_validation_framework.Device.Policy
use soc_validation_framework.Device.Policy.{policy_for}
use soc_validation_framework.Device.Status.{beats_of}
use soc_validation_framework.Device.Access.{read32_decoded}
use soc_validation_framework.Device.Dma.{IsRunning, tick-IsRunning, tick-IsDone}
use soc_validation_framework.Registers.{get}
use soc_validation_framework.Registers.Map.{dma_status, done_field, busy_field}
use soc_validation_framework.TxnLog.{Op, append, note, after_read, logged_read32}
use soc_validation_framework.Sequencer.RunOne.{outcome_of, Ended, returned, threw}
use soc_validation_framework.Benchmark.Status.{done_busy, done_rest, get-quotient}
use soc_validation_framework.Python.Bringup.{LoggedDevice, check_done, wait_for_done}

pub length-append_one : {A : Type 0} (xs : List A) (x : A) → length (xs ++ x ∷ []) ≡ length xs + 1
length-append_one [] x = refl
length-append_one (y ∷ ys) x = omega (arith, length-append_one ys x)

not_busy : (beats : ℕ) → beats < 2 ^ 16 → get busy_field (5 + beats * 256) ≡ 0
not_busy beats h = omega (
  arith,
  get-quotient busy_field (5 + beats * 256) (record { ordered = omega arith; within = omega arith })
      (omega arith),
)

module _ (now_ns : ℕ → ℕ) where
  abbrev pub logs : LoggedDevice now_ns → ℕ
  logs w = length w.log.records

  -- The world after a read of DMA_STATUS that found this word.
  abbrev pub read_world : ℕ → LoggedDevice now_ns → LoggedDevice now_ns
  read_world raw w = note now_ns Op.read32 dma_status.address raw (tick w.inner) w

  pub read_status :
      (w : LoggedDevice now_ns)
      → logged_read32 now_ns emulated dma_status.address w ≡ (
        ok ((tick w.inner).storage Policy.dma_status),
        read_world ((tick w.inner).storage Policy.dma_status) w,
      )
  unfolding logged_read32 after_read policy_for
  read_status w =
      ap (after_read now_ns dma_status.address w)
        (read32_decoded Policy.dma_status w.inner (_, refl))

  -- One poll, and the rest of the loop while DONE is clear.
  wait_step :
      (polls raw : ℕ) (w : LoggedDevice now_ns)
      → (tick w.inner).storage Policy.dma_status ≡ raw
      → wait_for_done now_ns (suc polls) w ≡ (
          if get done_field raw == 0
          then wait_for_done now_ns polls (read_world raw w)
          else (check_done now_ns raw, read_world raw w))
  unfolding wait_for_done
  wait_step polls raw w e =
      let next : Result ℕ × LoggedDevice now_ns → Ended × LoggedDevice now_ns = λ x. elim x.0 [
        | err exception ↦ (outcome_of (err exception), x.1)
        | ok v ↦
            if get done_field v == 0
            then wait_for_done now_ns polls x.1
            else (check_done now_ns v, x.1)
      ] in
      ap next (read_status w) ∙ ap (λ v. next (ok v, read_world v w)) e

  -- What the loop comes to on a transfer that is due in `left` ticks.
  pub record Waited (w : LoggedDevice now_ns) (left polls : ℕ) (r : Ended × LoggedDevice now_ns)
      : Type 0 where
    pub ended :
        r.0 ≡ (if ltb polls (max 1 left) then threw "transfer never reported DONE" else returned)
    pub logged : logs r.1 ≡ logs w + min polls (max 1 left)
    pub running : r.1.inner.dma_running ≡ ltb polls (max 1 left)

  pub logs-read_world : (raw : ℕ) (w : LoggedDevice now_ns) → logs (read_world raw w) ≡ logs w + 1
  unfolding note append
  logs-read_world raw w = length-append_one w.log.records _

  wait_last :
      (polls left : ℕ) (w : LoggedDevice now_ns)
      → left ≤ 1
      → IsRunning w.inner left
      → Waited w left (suc polls) (wait_for_done now_ns (suc polls) w)
  unfolding check_done note
  wait_last polls left w last r =
      let done = tick-IsDone w.inner left last r in
      let beats = beats_of (w.inner.storage Policy.dma_xfer_len) in
      let raw = 5 + beats * 256 in
      let same : wait_for_done now_ns (suc polls) w ≡ (returned, read_world raw w) = ground (
        arith,
        wait_step polls raw w done.status,
        done_rest beats (omega arith),
        not_busy beats (omega arith),
      ) in
      subst (Waited w left (suc polls)) (sym same) (record {
        ended = ground arith;
        logged = omega (arith, logs-read_world raw w);
        running = ground (arith, done.stopped);
      })

  wait_more :
      (polls left : ℕ) (w : LoggedDevice now_ns)
      → IsRunning w.inner (suc (suc left))
      → Waited (read_world 2 w) (suc left) polls (wait_for_done now_ns polls (read_world 2 w))
      → Waited w (suc (suc left)) (suc polls) (wait_for_done now_ns (suc polls) w)
  wait_more polls left w r o =
      let t = tick-IsRunning w.inner left r in
      let same : wait_for_done now_ns (suc polls) w ≡ wait_for_done now_ns polls (read_world 2 w) =
        ground (arith, wait_step polls 2 w t.busy, done_busy) in
      subst (Waited w (suc (suc left)) (suc polls)) (sym same) (record {
        ended = ground (arith, o.ended);
        logged = omega (arith, o.logged, logs-read_world 2 w);
        running = ground (arith, o.running);
      })

  pub wait-Waited :
      (polls left : ℕ) (w : LoggedDevice now_ns)
      → IsRunning w.inner left
      → Waited w left polls (wait_for_done now_ns polls w)
  unfolding wait_for_done note
  wait-Waited zero left w r = record {
    ended = ground arith;
    logged = omega arith;
    running = ground (arith, r.running);
  }
  wait-Waited (suc polls) zero w r = wait_last polls 0 w (omega arith) r
  wait-Waited (suc polls) (suc zero) w r = wait_last polls 1 w (omega arith) r
  wait-Waited (suc polls) (suc (suc left)) w r =
      wait_more polls left w r
        (wait-Waited polls (suc left) (read_world 2 w) (tick-IsRunning w.inner left r))
