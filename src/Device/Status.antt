-- ===== src/Device/Status.antt =====
-- The two status words that the device makes, as arithmetic.
use soc_validation_framework.Prelude.{
  ℕ, zero, suc, ◌+◌, ◌*◌, ◌/◌, ◌%◌, ◌^◌, ◌<◌, bit_and, ◌≡◌, refl, ◌⊎◌, arith,
}
use soc_validation_framework.Word.Fields.{bit_and_mask, bit_or_above}
use soc_validation_framework.Device.{done_status, link_up}
use soc_validation_framework.Device.Policy.{status_idle}

-- The 16 digits of the BEATS field: words of four bytes, of a length of 24 digits.
abbrev pub beats_of : ℕ → ℕ
beats_of len = len % 2 ^ 24 / 4 % 2 ^ 16

pub done_status-eq : (len : ℕ) → done_status len ≡ 5 + beats_of len * 256
unfolding done_status
done_status-eq len = ground (
  arith,
  bit_and_mask 24 len,
  bit_and_mask 16 (bit_and len 0x00FFFFFF / 4),
  bit_or_above 8 5 (bit_and (bit_and len 0x00FFFFFF / 4) 0xFFFF),
)

-- The status of a DMA engine at rest: as after a reset, or after a transfer.
abbrev pub IsRest : ℕ → Type 0
IsRest s = (s ≡ status_idle) ⊎ ((beats : ℕ) × (beats < 2 ^ 16) × (s ≡ 5 + beats * 256))

pub link_up-eq : (speed : ℕ) → speed < 8 → link_up speed ≡ 0x4101 + 2 * speed
unfolding link_up
link_up-eq zero h = refl
link_up-eq (suc zero) h = refl
link_up-eq (suc (suc zero)) h = refl
link_up-eq (suc (suc (suc zero))) h = refl
link_up-eq (suc (suc (suc (suc zero)))) h = refl
link_up-eq (suc (suc (suc (suc (suc zero))))) h = refl
link_up-eq (suc (suc (suc (suc (suc (suc zero)))))) h = refl
link_up-eq (suc (suc (suc (suc (suc (suc (suc zero))))))) h = refl
link_up-eq (suc (suc (suc (suc (suc (suc (suc (suc n)))))))) h = absurd (omega arith)
