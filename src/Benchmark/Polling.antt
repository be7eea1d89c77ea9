-- ===== src/Benchmark/Polling.antt =====
-- The transfer of `Workload`: how many of its polls are made, and what they find.
use soc_validation_framework.Prelude.{
  ℕ, zero, suc, ◌+◌, ◌*◌, ◌^◌, ◌<◌, ◌≤◌, ◌==◌, min, max, ltb, ◌≡◌, refl, sym, subst, ap, false,
  if◌then◌else◌, arith,
}
use soc_validation_framework.Bus.{Result, ok}
use soc_validation_framework.Device.{
  EmulatedDevice, emulated, tick, complete, read32, write32, write_decoded, start_transfer, retrain,
  set_transfer_latency,
}
use soc_validation_framework.Device
use soc_validation_framework.Device.Policy
use soc_validation_framework.Device.Policy.{policy_for, dma_xfer_len}
use soc_validation_framework.Device.Status.{beats_of}
use soc_validation_framework.Device.Valid.{IsValid, new-IsValid}
use soc_validation_framework.Device.Access.{read32_decoded, write32_decoded}
use soc_validation_framework.Device.Dma.{IsRunning, tick-IsRunning, tick-IsDone, begun-IsRunning}
use soc_validation_framework.Registers.{get, set, mask}
use soc_validation_framework.Registers.Map.{done_field}
use soc_validation_framework.Accessor.{read, write, write_only}
use soc_validation_framework.Benchmark.{poll, transfer, workload, go_burst}
use soc_validation_framework.Benchmark.Status.{done_busy, done_rest}

-- What a transfer that is due in `left` ticks becomes by so many polls.
pub record Outcome (d : EmulatedDevice) (left polls : ℕ) (r : Result (Unit {0}) × EmulatedDevice)
    : Type 0 where
  pub reply : r.0 ≡ ok tt
  pub running : r.1.dma_running ≡ ltb polls (max 1 left)
  pub status :
      r.1.storage Policy.dma_status
      ≡ (if ltb polls (max 1 left) then 2 else 5 + beats_of (d.storage dma_xfer_len) * 256)
  pub ticks : r.1.ticks ≡ d.ticks + min polls (max 1 left)

poll_zero :
    (d : EmulatedDevice) (left : ℕ) → IsRunning d left → Outcome d left 0 (poll emulated 0 d)
unfolding poll
poll_zero d left r = record {
  reply = refl;
  running = ground (arith, r.running);
  status = ground (arith, r.busy);
  ticks = ground arith;
}

-- One poll: a read, which ticks the device, and the rest of the loop while DONE is clear.
poll_step :
    (polls : ℕ) (d : EmulatedDevice)
    → poll emulated (suc polls) d ≡ (
        if get done_field ((tick d).storage Policy.dma_status) == 0
        then poll emulated polls (tick d)
        else (ok tt, tick d))
unfolding poll read policy_for
poll_step polls d = ground (arith, read32_decoded Policy.dma_status d (_, refl))

tick_frame :
    (d : EmulatedDevice)
    → d.ticks + 1 < 2 ^ 64
    → ((tick d).ticks ≡ d.ticks + 1) × ((tick d).storage dma_xfer_len ≡ d.storage dma_xfer_len)
unfolding tick complete
tick_frame d time = (ground arith, ground arith)

-- The poll that finds the transfer complete.
poll_last :
    (polls : ℕ) (d : EmulatedDevice) (left : ℕ)
    → left ≤ 1
    → IsRunning d left
    → Outcome d left (suc polls) (poll emulated (suc polls) d)
poll_last polls d left last r =
    let done = tick-IsDone d left last r in
    let clock = (tick_frame d (omega (arith, r.due, r.fits))).0 in
    let same : poll emulated (suc polls) d ≡ (ok tt, tick d) = ground (
      arith,
      poll_step polls d,
      ap (get done_field) done.status,
      done_rest (beats_of (d.storage dma_xfer_len)) (omega arith),
    ) in
    subst (Outcome d left (suc polls)) (sym same) (record {
      reply = refl;
      running = ground (arith, done.stopped);
      status = ground (arith, done.status);
      ticks = ground (arith, clock);
    })

poll_more :
    (polls : ℕ) (d : EmulatedDevice) (left : ℕ)
    → IsRunning d (suc (suc left))
    → Outcome (tick d) (suc left) polls (poll emulated polls (tick d))
    → Outcome d (suc (suc left)) (suc polls) (poll emulated (suc polls) d)
poll_more polls d left r o =
    let t = tick-IsRunning d left r in
    let (clock, length) = tick_frame d (omega (arith, r.due, r.fits)) in
    let same : poll emulated (suc polls) d ≡ poll emulated polls (tick d) =
      ground (arith, poll_step polls d, ap (get done_field) t.busy, done_busy) in
    subst (Outcome d (suc (suc left)) (suc polls)) (sym same) (record {
      reply = o.reply;
      running = ground (arith, o.running);
      status = ground (arith, o.status, length);
      ticks = ground (arith, o.ticks, clock);
    })

poll-Outcome :
    (polls : ℕ) (d : EmulatedDevice) (left : ℕ)
    → IsRunning d left
    → Outcome d left polls (poll emulated polls d)
poll-Outcome zero d left r = poll_zero d left r
poll-Outcome (suc polls) d zero r = poll_last polls d 0 (omega arith) r
poll-Outcome (suc polls) d (suc zero) r = poll_last polls d 1 (omega arith) r
poll-Outcome (suc polls) d (suc (suc left)) r =
    poll_more polls d left r (poll-Outcome polls (tick d) (suc left) (tick-IsRunning d left r))

-- The word that `Workload` writes to DMA_CTRL: GO, and a burst length of 8.
go_word : go_burst 0 ≡ 0x81
unfolding set mask
go_word = refl

transfer_step :
    (polls : ℕ) (d : EmulatedDevice)
    → transfer emulated polls d ≡ poll emulated polls (write32 Policy.dma_ctrl 0x81 d).1
unfolding transfer write_only write policy_for
transfer_step polls d = ground (
  arith,
  go_word,
  ap (λ w. write32 Policy.dma_ctrl w d) go_word,
  write32_decoded Policy.dma_ctrl 0x81 d refl,
)

begun_frame :
    (d : EmulatedDevice)
    → d.ticks + 1 < 2 ^ 64
    → let begun = (write32 Policy.dma_ctrl 0x81 d).1 in
      (begun.ticks ≡ d.ticks + 1) × (begun.storage dma_xfer_len ≡ d.storage dma_xfer_len)
unfolding policy_for write_decoded start_transfer retrain tick complete
begun_frame d time = rw (write32_decoded Policy.dma_ctrl 0x81 d refl) (ground arith, ground arith)

-- What the transfer of `Workload` does to a valid, idle device whose clock with the latency stays
-- below 2^64, whatever number of polls it is allowed: it returns; the polls made are as many as the latency has ticks, or one for a latency of zero,
-- unless fewer are allowed; if they are, the engine is left running and BUSY, and otherwise it has
-- stopped with DONE, IDLE and the beats of the length that is set.
pub transfer_outcome :
    (polls : ℕ) (d : EmulatedDevice)
    → IsValid d
    → d.dma_running ≡ false
    → d.ticks + 1 + d.latency + 1 < 2 ^ 64
    → let r = transfer emulated polls d in
      let early = ltb polls (max 1 d.latency) in
      (r.0 ≡ ok tt)
      × (r.1.ticks ≡ d.ticks + 1 + min polls (max 1 d.latency))
      × (r.1.dma_running ≡ early)
      × (r.1.storage Policy.dma_status
          ≡ (if early then 2 else 5 + beats_of (d.storage dma_xfer_len) * 256))
transfer_outcome polls d v idle time =
    let begun = (write32 Policy.dma_ctrl 0x81 d).1 in
    let (clock, length) = begun_frame d (omega arith) in
    let o =
      poll-Outcome polls begun d.latency
        (begun-IsRunning d 0x81 v (omega arith) (omega arith) idle time) in
    rw (transfer_step polls d)
      (o.reply, omega (arith, o.ticks, clock), o.running, ground (arith, o.status, length))

-- `Workload` returns.
pub workload-ok : workload ≡ ok tt
unfolding workload set_transfer_latency Device.new
workload-ok =
    let v = new-IsValid in
    (transfer_outcome 200 (set_transfer_latency 4 Device.new)
      (record { words = v.words; clock = v.clock; busy = v.busy; rest = v.rest; link = v.link })
      refl (omega arith)).0
