-- ===== src/Device/Valid.antt =====
-- The invariant of the device, and that every method keeps it.
use soc_validation_framework.Prelude.{
  ℕ, ◌+◌, ◌*◌, ◌^◌, ◌<◌, ◌≡◌, refl, sym, ◌∙◌, subst, ◌⊎◌, inl, inr, true, false, some, bit_and,
  arith, if_elim, List, [], ◌∷◌,
}
use soc_validation_framework.Word.{shr, u64}
use soc_validation_framework.Word.Bits.{bit_or-lt}
use soc_validation_framework.Word.Fields.{bit_and_mask}
use soc_validation_framework.Device.{
  EmulatedDevice, new, reset, tick, write_decoded, start_transfer, retrain, link_up, merge,
  complete, store, started, linked,
}
use soc_validation_framework.Device.Policy.{
  RegPolicy, dma_status, dma_irq, dma_xfer_len, pcie_link_status, policy_for,
}
use soc_validation_framework.Device.Merge.{merge-lt, merge_read_only}
use soc_validation_framework.Device.Status.{IsRest, done_status-eq, link_up-eq, beats_of}
use soc_validation_framework.Device.Access.{Access, step, run, step_cases, reads, writes}

-- Every word fits 32 digits and the clock 64; the DMA status is BUSY alone while a transfer runs
-- and a status of rest otherwise; the link is down, or up at one of eight speeds.
pub record IsValid (d : EmulatedDevice) : Type 0 where
  pub words : (a : ℕ) → d.storage a < 2 ^ 32
  pub clock : d.ticks < 2 ^ 64
  pub busy : d.dma_running ≡ true → d.storage dma_status ≡ 2
  pub rest : d.dma_running ≡ false → IsRest (d.storage dma_status)
  pub link :
      (d.storage pcie_link_status ≡ 0)
      ⊎ ((speed : ℕ) × (speed < 8) × (d.storage pcie_link_status ≡ 0x4101 + 2 * speed))

complete-IsValid : (d : EmulatedDevice) → IsValid d → IsValid (complete d)
unfolding complete
complete-IsValid d v = record {
  words = λ a. ground (
    arith,
    v.words a,
    done_status-eq (d.storage dma_xfer_len),
    bit_or-lt 32 (d.storage dma_irq) 1 (v.words dma_irq),
  );
  clock = v.clock;
  busy = λ e. ground arith;
  rest = λ e.
      inr (beats_of (d.storage dma_xfer_len), omega arith, done_status-eq (d.storage dma_xfer_len));
  link = v.link;
}

pub tick-IsValid : (d : EmulatedDevice) → IsValid d → IsValid (tick d)
unfolding tick
tick-IsValid d v = if_elim IsValid _ (λ _. complete-IsValid _ ticked) (λ _. ticked)
  where
    ticked : IsValid (record d { ticks = u64 (d.ticks + 1) })
    ticked = record {
      words = v.words;
      clock = omega arith;
      busy = v.busy;
      rest = v.rest;
      link = v.link;
    }

started-IsValid : (d : EmulatedDevice) → IsValid d → IsValid (started d)
started-IsValid d v = record {
  words = λ a. ground (arith, v.words a);
  clock = v.clock;
  busy = λ _. refl;
  rest = λ e. cc;
  link = v.link;
}

start_transfer-IsValid :
    (address value : ℕ) (d : EmulatedDevice) → IsValid d → IsValid (start_transfer address value d)
unfolding start_transfer
start_transfer-IsValid address value d v = if_elim IsValid _ (λ _. started-IsValid d v) (λ _. v)

linked-IsValid : (value : ℕ) (d : EmulatedDevice) → IsValid d → IsValid (linked value d)
linked-IsValid value d v = record {
  words = λ a. ground (arith, v.words a, slow, is_up, fits);
  clock = v.clock;
  busy = v.busy;
  rest = v.rest;
  link = inr (speed, slow, is_up);
}
  where
    speed : ℕ
    speed = bit_and (shr value 1) 7

    slow : speed < 8
    slow = omega (arith, bit_and_mask 3 (shr value 1))

    is_up : link_up speed ≡ 0x4101 + 2 * speed
    is_up = link_up-eq speed slow

    fits : link_up speed < 2 ^ 32
    fits = omega (arith, is_up, slow)

retrain-IsValid :
    (address value : ℕ) (d : EmulatedDevice) → IsValid d → IsValid (retrain address value d)
unfolding retrain
retrain-IsValid address value d v = if_elim IsValid _ (λ _. linked-IsValid value d v) (λ _. v)

module _ (address value : ℕ) (p : RegPolicy) (decoded : policy_for address ≡ some p)
    (word : value < 2 ^ 32) where
  abbrev pub written : EmulatedDevice → EmulatedDevice
  written d = record d { storage = store d.storage address (merge p (d.storage address) value) }

  -- The two status registers cannot be written.
  pub written-status :
      (d : EmulatedDevice) → IsValid d → (written d).storage dma_status ≡ d.storage dma_status
  unfolding policy_for
  written-status d v =
      ground (arith, merge_read_only p (d.storage address) value, v.words dma_status)

  written-link_status :
      (d : EmulatedDevice)
      → IsValid d
      → (written d).storage pcie_link_status ≡ d.storage pcie_link_status
  unfolding policy_for
  written-link_status d v =
      ground (arith, merge_read_only p (d.storage address) value, v.words pcie_link_status)

  written-IsValid : (d : EmulatedDevice) → IsValid d → IsValid (written d)
  written-IsValid d v = record {
    words = λ a. ground (arith, v.words a, v.words address, merge-lt p (d.storage address) value);
    clock = v.clock;
    busy = λ e. written-status d v ∙ v.busy e;
    rest = λ e. subst IsRest (sym (written-status d v)) (v.rest e);
    link = rw (written-link_status d v) v.link;
  }

  pub write_decoded-IsValid :
      (d : EmulatedDevice) → IsValid d → IsValid (write_decoded p address value d)
  unfolding write_decoded
  write_decoded-IsValid d v =
      retrain-IsValid address value _
        (start_transfer-IsValid address value _ (written-IsValid (tick d) (tick-IsValid d v)))

-- A value that a caller can pass is a word.
abbrev pub IsWordAccess : Access → Type 0
IsWordAccess (reads address) = Unit
IsWordAccess (writes address value) = value < 2 ^ 32

abbrev pub AllWords : List Access → Type 0
AllWords [] = Unit
AllWords (a ∷ rest) = IsWordAccess a × AllWords rest

pub step-IsValid :
    (a : Access) (d : EmulatedDevice) → IsWordAccess a → IsValid d → IsValid (step a d)
step-IsValid a d word v = step_cases IsValid a d v (tick-IsValid d v) λ address value p e decoded.
    write_decoded-IsValid address value p decoded (subst IsWordAccess e word) d v

pub run-IsValid :
    (all : List Access) (d : EmulatedDevice) → AllWords all → IsValid d → IsValid (run all d)
unfolding run
run-IsValid [] d words v = v
run-IsValid (a ∷ rest) d words v = run-IsValid rest (step a d) words.1 (step-IsValid a d words.0 v)

pub new-IsValid : IsValid new
unfolding new
new-IsValid = record {
  words = λ a. ground arith;
  clock = omega arith;
  busy = λ e. cc;
  rest = λ _. inl refl;
  link = inl refl;
}

pub reset-IsValid : (d : EmulatedDevice) → IsValid d → IsValid (reset d)
unfolding reset
reset-IsValid d v = record {
  words = λ a. ground (arith, v.words a);
  clock = omega arith;
  busy = λ e. cc;
  rest = λ _. inl refl;
  link = inl refl;
}

-- Any sequence of reads and writes of words, decoded or not, keeps the invariant that a new
-- device has: the words fit, BUSY shows exactly while a transfer runs, and the link word is one
-- that a retrain makes.
pub run-new-IsValid : (all : List Access) → AllWords all → IsValid (run all new)
run-new-IsValid all words = run-IsValid all new words new-IsValid
