-- ===== src/Device/Reset.antt =====
-- `Reset` against the constructor.
use soc_validation_framework.Prelude.{
  ℕ, ◌≡◌, refl, fun_ext, none, some, List, [], ◌∷◌, arith, false, if_elim,
}
use soc_validation_framework.Device.{
  EmulatedDevice, new, reset, set_transfer_latency, tick, complete, write_decoded, start_transfer,
  retrain,
}
use soc_validation_framework.Device.Policy.{policy_for, RegPolicy}
use soc_validation_framework.Device.Access.{Access, step, run, step_cases}

-- Nothing is stored outside the registers, and the latency is the one that was set.
record IsBlank (n : ℕ) (d : EmulatedDevice) : Type 0 where
  elsewhere : (a : ℕ) → policy_for a ≡ none → d.storage a ≡ 0
  latency : d.latency ≡ n

module _ (n : ℕ) where
  complete-IsBlank : (d : EmulatedDevice) → IsBlank n d → IsBlank n (complete d)
  unfolding complete policy_for
  complete-IsBlank d b = record {
    elsewhere = λ a e. ground (arith, b.elsewhere a);
    latency = b.latency;
  }

  tick-IsBlank : (d : EmulatedDevice) → IsBlank n d → IsBlank n (tick d)
  unfolding tick
  tick-IsBlank d b =
      let ticked : IsBlank n _ = record { elsewhere = b.elsewhere; latency = b.latency } in
      if_elim (IsBlank n) _ (λ _. complete-IsBlank _ ticked) (λ _. ticked)

  write_decoded-IsBlank :
      (address value : ℕ) (p : RegPolicy) (d : EmulatedDevice)
      → policy_for address ≡ some p
      → IsBlank n d
      → IsBlank n (write_decoded p address value d)
  unfolding write_decoded start_transfer retrain policy_for
  write_decoded-IsBlank address value p d decoded b =
      let t = tick-IsBlank d b in
      record {
        elsewhere = λ a e. ground (arith, t.elsewhere a);
        latency = ground (arith, t.latency);
      }

  step-IsBlank : (a : Access) (d : EmulatedDevice) → IsBlank n d → IsBlank n (step a d)
  step-IsBlank a d b =
      step_cases (IsBlank n) a d b (tick-IsBlank d b)
        λ address value p _ decoded. write_decoded-IsBlank address value p d decoded b

  run-IsBlank : (all : List Access) (d : EmulatedDevice) → IsBlank n d → IsBlank n (run all d)
  unfolding run
  run-IsBlank [] d b = b
  run-IsBlank (a ∷ rest) d b = run-IsBlank rest (step a d) (step-IsBlank a d b)

  power_on-IsBlank : IsBlank n (set_transfer_latency n new)
  unfolding set_transfer_latency new policy_for
  power_on-IsBlank = record { elsewhere = λ a e. ground arith; latency = refl }

  reset-eq : (d : EmulatedDevice) → IsBlank n d → reset d ≡ set_transfer_latency n new
  unfolding reset set_transfer_latency new
  reset-eq d b = λ i. record {
    storage = fun_ext (same b) i;
    ticks = 0;
    latency = b.latency i;
    dma_done_at = 0;
    dma_running = false;
  }
    where
      same : IsBlank n d → (a : ℕ) → (reset d).storage a ≡ new.storage a
      same b a = unfold policy_for in ground (arith, b.elsewhere a)

  -- After any history of reads and writes a reset brings the device back to the state that it
  -- was constructed in, but for the transfer latency, which stays as it was set.
  pub reset-run :
      (all : List Access)
      → reset (run all (set_transfer_latency n new)) ≡ set_transfer_latency n new
  reset-run all = reset-eq _ (run-IsBlank all _ power_on-IsBlank)
