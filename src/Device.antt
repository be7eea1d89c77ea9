-- ===== src/Device.antt =====
-- src/emulated_device.cpp and include/soc/emulated_device.hpp: the behavioural model of the DMA
-- and PCIe registers, operation by operation.
pub mod Policy
pub mod Merge
pub mod Access
pub mod Status
pub mod Valid
pub mod Write
pub mod Dma
pub mod Overflow
pub mod Block
pub mod Decode
pub mod Reset
pub mod Tests
use soc_validation_framework.Prelude.{
  ℕ, zero, suc, ◌+◌, ◌*◌, ◌/◌, ◌≡◌, List, [], ◌∷◌, Option, none, some, Bool, true, false, ◌&&◌, not,
  bit_and, bit_or, leb, ◌==◌, if◌then◌else◌, get_elem?, set, length,
}
use soc_validation_framework.Word.{u64, not32, shl32, shr}
use soc_validation_framework.Bus.{
  Exception, transport_error, undefined_access, Result, ok, err, M, ◌>>=◌, ◌>>◌, pure, Buffer,
  Transport,
}
use Policy.{
  RegPolicy, policy_table, policy_for, dma_ctrl, dma_status, dma_irq, dma_xfer_len,
  pcie_link_status, pcie_link_ctrl, ctrl_go, status_idle, status_busy, status_done, irq_done,
}

-- `storage_`, as `operator[]` reads it: 0 where no key is stored.
abbrev pub Storage : Type 0
Storage = ℕ → ℕ

abbrev pub store : Storage → ℕ → ℕ → Storage
store s address value a = if a == address then value else s a

pub record EmulatedDevice : Type 0 where
  pub storage : Storage
  pub ticks : ℕ
  pub latency : ℕ
  pub dma_done_at : ℕ
  pub dma_running : Bool

reset_storage : List (ℕ × RegPolicy) → Storage → Storage
reset_storage [] s = s
reset_storage ((address, policy) ∷ rest) s = reset_storage rest (store s address policy.reset)

-- `Reset`. The latency stays as it was set.
unfoldable pub reset : EmulatedDevice → EmulatedDevice
unfolding reset_storage
reset d = record d {
  storage = reset_storage policy_table d.storage;
  ticks = 0;
  dma_running = false;
  dma_done_at = 0;
}

-- The constructor, with the members' initialisers.
unfoldable pub new : EmulatedDevice
unfolding reset
new = reset (record {
  storage = λ address. 0;
  ticks = 0;
  latency = 8;
  dma_done_at = 0;
  dma_running = false;
})

unfoldable pub set_transfer_latency : ℕ → EmulatedDevice → EmulatedDevice
set_transfer_latency n d = record d { latency = n }

-- The status word of a transfer of `len` bytes that has ended.
unfoldable pub done_status : ℕ → ℕ
done_status len =
    let beats = bit_and len 0x00FFFFFF / 4 in
    bit_or (bit_or status_idle status_done) (shl32 (bit_and beats 0xFFFF) 8)

-- The body of the `if` in `Tick`.
unfoldable pub complete : EmulatedDevice → EmulatedDevice
complete d =
    let s = store d.storage dma_status (done_status (d.storage dma_xfer_len)) in
    record d { storage = store s dma_irq (bit_or (s dma_irq) irq_done); dma_running = false }

unfoldable pub tick : EmulatedDevice → EmulatedDevice
tick d =
    let d' = record d { ticks = u64 (d.ticks + 1) } in
    if d'.dma_running && leb d'.dma_done_at d'.ticks then complete d' else d'

-- `PolicyFor` as the methods call it.
unfoldable pub require_policy : ℕ → M EmulatedDevice RegPolicy
require_policy address d = elim (policy_for address) [
  | none ↦ (err (transport_error "no register decoded at address" address), d)
  | some policy ↦ (ok policy, d)
]

unfoldable pub read32 : ℕ → M EmulatedDevice ℕ
unfolding require_policy
read32 address = do
  policy ← require_policy address
  λ d. let d' = tick d in (ok (d'.storage address), d')

-- What `Write32` stores over `current`.
unfoldable pub merge : RegPolicy → ℕ → ℕ → ℕ
merge policy current value =
    let cleared =
      if policy.w1c_mask == 0
      then current
      else bit_and current (not32 (bit_and value policy.w1c_mask)) in
    let writable = not32 (bit_or policy.ro_mask policy.w1c_mask) in
    bit_or (bit_and cleared (not32 writable)) (bit_and value writable)

abbrev pub started : EmulatedDevice → EmulatedDevice
started d = record d {
  dma_running = true;
  dma_done_at = u64 (d.ticks + d.latency);
  storage = store d.storage dma_status status_busy;
}

-- Writing GO to the DMA control register starts a transfer, unless one is running.
unfoldable pub start_transfer : ℕ → ℕ → EmulatedDevice → EmulatedDevice
start_transfer address value d =
    if address == dma_ctrl && not (bit_and value ctrl_go == 0) && not d.dma_running
    then started d
    else d

-- The link status after a retrain to `target_speed`.
unfoldable pub link_up : ℕ → ℕ
link_up target_speed =
    bit_or (bit_or (bit_or 1 (shl32 target_speed 1)) (shl32 16 4)) (shl32 0x10 10)

abbrev pub linked : ℕ → EmulatedDevice → EmulatedDevice
linked value d = record d {
  storage = store d.storage pcie_link_status (link_up (bit_and (shr value 1) 7));
}

-- Writing RETRAIN to the link control register brings the link up.
unfoldable pub retrain : ℕ → ℕ → EmulatedDevice → EmulatedDevice
retrain address value d =
    if address == pcie_link_ctrl && not (bit_and value 1 == 0) then linked value d else d

-- `Write32` once the address is decoded.
unfoldable pub write_decoded : RegPolicy → ℕ → ℕ → EmulatedDevice → EmulatedDevice
unfolding start_transfer retrain
write_decoded policy address value d =
    let d' = tick d in
    let written = record d' {
      storage = store d'.storage address (merge policy (d'.storage address) value);
    } in
    retrain address value (start_transfer address value written)

unfoldable pub write32 : ℕ → ℕ → M EmulatedDevice (Unit {0})
unfolding require_policy
write32 address value = do
  policy ← require_policy address
  λ d. (ok tt, write_decoded policy address value d)

-- The loop of `ReadBlock` from index `i`, with `left` rounds to go.
read_words :
    (left i address : ℕ) → List ℕ → EmulatedDevice → Result (Unit {0}) × List ℕ × EmulatedDevice
read_words zero i address out d = (ok tt, out, d)
read_words (suc left) i address out d =
    let (r, d') = read32 (u64 (address + i * 4)) d in
    elim r [
      | err e ↦ (err e, out, d')
      | ok word ↦ elim (get_elem? out i) [
        | none ↦ (err undefined_access, out, d')
        | some _ ↦ read_words left (i + 1) address (set out i word) d'
      ]
    ]

unfoldable pub read_block :
    ℕ → Buffer → ℕ → EmulatedDevice → Result (Unit {0}) × Buffer × EmulatedDevice
unfolding read_words
read_block address none count d =
    if count == 0
    then (ok tt, none, d)
    else (err (transport_error "ReadBlock called with a null buffer" address), none, d)
read_block address (some out) count d =
    let (r, out', d') = read_words count 0 address out d in (r, some out', d')

-- The loop of `WriteBlock`.
write_words : (left i address : ℕ) → List ℕ → M EmulatedDevice (Unit {0})
write_words zero i address words d = (ok tt, d)
write_words (suc left) i address words d = elim (get_elem? words i) [
  | none ↦ (err undefined_access, d)
  | some word ↦
      let (r, d') = write32 (u64 (address + i * 4)) word d in
      elim r [ err e ↦ (err e, d') | ok _ ↦ write_words left (i + 1) address words d' ]
]

unfoldable pub write_block : ℕ → Buffer → ℕ → M EmulatedDevice (Unit {0})
unfolding write_words
write_block address none count d =
    if count == 0
    then (ok tt, d)
    else (err (transport_error "WriteBlock called with a null buffer" address), d)
write_block address (some words) count d = write_words count 0 address words d

abbrev pub emulated : Transport EmulatedDevice
emulated = record {
  read32 = read32;
  write32 = write32;
  read_block = read_block;
  write_block = write_block;
  name = λ d. "emulated";
}
