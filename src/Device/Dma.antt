-- ===== src/Device/Dma.antt =====
-- A DMA transfer from GO to DONE, over any accesses that run in between.
use soc_validation_framework.Prelude.{
  ℕ, suc, ◌+◌, ◌-◌, ◌*◌, ◌^◌, ◌≤◌, ◌<◌, max, bit_and, bit_or, ◌≡◌, refl, ◌≢◌, sym, subst, ap, true,
  false, some, List, [], ◌∷◌, length, arith,
}
use soc_validation_framework.Bus.{ok}
use soc_validation_framework.Device.{
  EmulatedDevice, tick, complete, read32, write32, write_decoded, start_transfer, retrain,
}
use soc_validation_framework.Device.Policy.{
  RegPolicy, dma_ctrl, dma_status, dma_irq, dma_xfer_len, ctrl_go, policy_for,
}
use soc_validation_framework.Device.Status.{beats_of, done_status-eq}
use soc_validation_framework.Device.Valid.{
  IsValid, tick-IsValid, step-IsValid, IsWordAccess, AllWords, written-status,
}
use soc_validation_framework.Device.Access.{
  Access, reads, writes, target, step, run, IsDecoded, AllDecoded, read32_decoded, write32_decoded,
}

-- A transfer is running that is due in `left` ticks, and the clock does not wrap before that.
pub record IsRunning (d : EmulatedDevice) (left : ℕ) : Type 0 where
  pub running : d.dma_running ≡ true
  pub due : d.dma_done_at ≡ d.ticks + left
  pub fits : d.dma_done_at + 1 < 2 ^ 64
  pub busy : d.storage dma_status ≡ 2

pub tick-IsRunning :
    (d : EmulatedDevice) (left : ℕ) → IsRunning d (suc (suc left)) → IsRunning (tick d) (suc left)
unfolding tick
tick-IsRunning d left r = record {
  running = ground arith;
  due = ground arith;
  fits = ground arith;
  busy = ground arith;
}

module _ (address value : ℕ) (p : RegPolicy) (decoded : policy_for address ≡ some p)
    (word : value < 2 ^ 32) (d : EmulatedDevice) (v : IsValid d) where
  -- While a transfer runs, a write leaves the transfer and its status alone.
  write_decoded-IsRunning :
      (left : ℕ)
      → IsRunning d (suc (suc left))
      → IsRunning (write_decoded p address value d) (suc left)
  unfolding write_decoded start_transfer retrain
  write_decoded-IsRunning left r =
      let t = tick-IsRunning d left r in
      record {
        running = ground (arith, t.running);
        due = ground (arith, t.running, t.due);
        fits = ground (arith, t.running, t.fits);
        busy = ground (
          arith,
          t.running,
          t.busy,
          written-status address value p decoded word (tick d) (tick-IsValid d v),
        );
      }

step-IsRunning :
    (a : Access) (d : EmulatedDevice) (left : ℕ)
    → IsDecoded (target a)
    → IsWordAccess a
    → IsValid d
    → IsRunning d (suc (suc left))
    → IsRunning (step a d) (suc left)
unfolding step
step-IsRunning (reads address) d left decoded word v r =
    rw (step, read32_decoded address d decoded) (tick-IsRunning d left r)
step-IsRunning (writes address value) d left (p, decoded) word v r =
    rw (step, write32_decoded address value d decoded)
      (write_decoded-IsRunning address value p decoded word d v left r)

run-IsRunning :
    (all : List Access) (d : EmulatedDevice) (left : ℕ)
    → AllDecoded all
    → AllWords all
    → IsValid d
    → IsRunning d (length all + suc left)
    → IsRunning (run all d) (suc left)
unfolding run
run-IsRunning [] d left decoded words v r = subst (IsRunning d) (omega arith) r
run-IsRunning (a ∷ rest) d left decoded words v r =
    run-IsRunning rest (step a d) left decoded.1 words.1 (step-IsValid a d words.0 v) (
      subst (IsRunning (step a d)) (omega arith) (
        step-IsRunning a d (length rest + left) decoded.0 words.0 v
          (subst (IsRunning d) (omega arith) r)))

-- The tick that completes a transfer which is due, or is due in one tick.
pub record IsDone (before after : EmulatedDevice) : Type 0 where
  pub stopped : after.dma_running ≡ false
  pub status : after.storage dma_status ≡ 5 + beats_of (before.storage dma_xfer_len) * 256
  pub interrupt : after.storage dma_irq ≡ bit_or (before.storage dma_irq) 1

pub tick-IsDone : (d : EmulatedDevice) (left : ℕ) → left ≤ 1 → IsRunning d left → IsDone d (tick d)
unfolding tick complete
tick-IsDone d left last r = record {
  stopped = ground arith;
  status = ground (arith, done_status-eq (d.storage dma_xfer_len));
  interrupt = ground arith;
}

-- The device right after GO was written to an idle engine.
module _ (d : EmulatedDevice) (value : ℕ) (v : IsValid d) (word : value < 2 ^ 32)
    (go : bit_and value ctrl_go ≢ 0) (idle : d.dma_running ≡ false)
    (time : d.ticks + 1 + d.latency + 1 < 2 ^ 64) where
  abbrev begun : EmulatedDevice
  begun = (write32 dma_ctrl value d).1

  go_decoded : (p : RegPolicy) → IsRunning (write_decoded p dma_ctrl value d) d.latency
  unfolding write_decoded start_transfer retrain tick
  go_decoded p = record {
    running = ground arith;
    due = ground arith;
    fits = ground arith;
    busy = ground arith;
  }

  pub begun-IsRunning : IsRunning begun d.latency
  unfolding policy_for
  begun-IsRunning =
      subst (λ r. IsRunning r.1 d.latency) (sym (write32_decoded dma_ctrl value d refl))
        (go_decoded _)

  begun-IsValid : IsValid begun
  unfolding step
  begun-IsValid = step-IsValid (writes dma_ctrl value) d word v

  -- When a 32-bit word with GO is written to the idle engine of a valid device, and the clock with the
  -- latency stays below 2^64: until the latency has passed (one access for a latency of zero), whatever decoded accesses
  -- of 32-bit words are made, the engine runs and its status is BUSY and nothing else.
  pub go_is_busy :
      (all : List Access)
      → AllDecoded all
      → AllWords all
      → length all < max 1 d.latency
      → ((run all begun).dma_running ≡ true) × ((run all begun).storage dma_status ≡ 2)
  unfolding run
  go_is_busy [] decoded words early = (begun-IsRunning.running, begun-IsRunning.busy)
  go_is_busy (a ∷ rest) decoded words early =
      let r =
        run-IsRunning (a ∷ rest) begun (d.latency - length rest - 2) decoded words begun-IsValid
          (subst (IsRunning begun) (omega arith) begun-IsRunning) in
      (r.running, r.busy)

  begun_due :
      (all : List Access)
      → AllDecoded all
      → AllWords all
      → length all + 1 ≡ max 1 d.latency
      → (left : ℕ) × (left ≤ 1) × IsRunning (run all begun) left
  unfolding run
  begun_due [] decoded words on_time = (d.latency, omega arith, begun-IsRunning)
  begun_due (a ∷ rest) decoded words on_time = (
    1,
    omega arith,
    run-IsRunning (a ∷ rest) begun 0 decoded words begun-IsValid
        (subst (IsRunning begun) (omega arith) begun-IsRunning),
  )

  -- When a 32-bit word with GO is written to the idle engine of a valid device, and the clock with the
  -- latency stays below 2^64: whatever decoded accesses of 32-bit words are made, the one on which the latency has passed (the next for
  -- a latency of zero) finds the transfer complete. The status is IDLE and DONE with the beats of
  -- the length that is then set, the completion interrupt is latched, and the engine has stopped.
  pub go_completes :
      (all : List Access)
      → AllDecoded all
      → AllWords all
      → length all + 1 ≡ max 1 d.latency
      → let before = run all begun in
        let after = read32 dma_status before in
        (after.0 ≡ ok (5 + beats_of (before.storage dma_xfer_len) * 256)) × IsDone before after.1
  unfolding policy_for
  go_completes all decoded words on_time =
      let (left, last, r) = begun_due all decoded words on_time in
      let done = tick-IsDone (run all begun) left last r in
      subst
        (λ r.
          (r.0 ≡ ok (5 + beats_of ((run all begun).storage dma_xfer_len) * 256))
          × IsDone (run all begun) r.1)
        (sym (read32_decoded dma_status (run all begun) (_, refl))) (ap ok done.status, done)
