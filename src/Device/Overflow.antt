-- ===== src/Device/Overflow.antt =====
-- A latency so large that the due time of a transfer leaves 64 bits.
use soc_validation_framework.Prelude.{
  ℕ, ◌+◌, ◌*◌, ◌^◌, ◌≤◌, ◌<◌, bit_and, ◌≡◌, refl, ◌≢◌, sym, subst, ap, true, false, arith,
}
use soc_validation_framework.Bus.{ok}
use soc_validation_framework.Device.{
  EmulatedDevice, tick, complete, read32, write32, write_decoded, start_transfer, retrain,
}
use soc_validation_framework.Device.Policy.{
  RegPolicy, dma_ctrl, dma_status, dma_xfer_len, ctrl_go, policy_for,
}
use soc_validation_framework.Device.Status.{beats_of, done_status-eq}
use soc_validation_framework.Device.Access.{read32_decoded, write32_decoded}
use soc_validation_framework.Device.Dma.{IsDone}

-- A transfer is running whose due time has passed.
record IsOverdue (d : EmulatedDevice) : Type 0 where
  running : d.dma_running ≡ true
  past : d.dma_done_at ≤ d.ticks
  fits : d.ticks + 1 < 2 ^ 64

tick-IsDone_overdue : (d : EmulatedDevice) → IsOverdue d → IsDone d (tick d)
unfolding tick complete
tick-IsDone_overdue d r = record {
  stopped = ground (arith, r.running, r.past, r.fits);
  status = ground (arith, r.running, r.past, r.fits, done_status-eq (d.storage dma_xfer_len));
  interrupt = ground (arith, r.running, r.past, r.fits);
}

module _ (d : EmulatedDevice) (value : ℕ) (go : bit_and value ctrl_go ≢ 0)
    (idle : d.dma_running ≡ false) (clock : d.ticks + 2 < 2 ^ 64) (latency : d.latency < 2 ^ 64)
    (wraps : 2 ^ 64 ≤ d.ticks + 1 + d.latency) where
  abbrev started_wrapped : EmulatedDevice
  started_wrapped = (write32 dma_ctrl value d).1

  wrapped_decoded : (p : RegPolicy) → IsOverdue (write_decoded p dma_ctrl value d)
  unfolding write_decoded start_transfer retrain tick
  wrapped_decoded p = record { running = ground arith; past = ground arith; fits = ground arith }

  wrapped-IsOverdue : IsOverdue started_wrapped
  unfolding policy_for
  wrapped-IsOverdue =
      subst (λ r. IsOverdue r.1) (sym (write32_decoded dma_ctrl value d refl)) (wrapped_decoded _)

  -- When GO is written to an idle engine and the clock plus the latency leave 64 bits, the very
  -- next read of the status finds the transfer complete, however large the latency is, as long as
  -- the clock itself does not wrap on these two accesses.
  pub wrapped_completes :
      let before = (write32 dma_ctrl value d).1 in
      let after = read32 dma_status before in
      (after.0 ≡ ok (5 + beats_of (before.storage dma_xfer_len) * 256)) × IsDone before after.1
  unfolding policy_for
  wrapped_completes =
      let done = tick-IsDone_overdue started_wrapped wrapped-IsOverdue in
      subst
        (λ r.
          (r.0 ≡ ok (5 + beats_of (started_wrapped.storage dma_xfer_len) * 256))
          × IsDone started_wrapped r.1)
        (sym (read32_decoded dma_status started_wrapped (_, refl))) (ap ok done.status, done)
