-- ===== src/Registers/Map.antt =====
-- regmaps/soc.yaml: the registers and fields, as the generator reads them.
use Prim.Native.String.{String}
use soc_validation_framework.Prelude.{ℕ, ◌+◌, List, [], ◌∷◌}
use soc_validation_framework.Registers.{Field, Register, Access, rw', ro, w1c}

abbrev field : String → ℕ → ℕ → Access → Field
field label hi lo access = record { label = label; hi = hi; lo = lo; access = access }

-- The fields that other code names.
abbrev pub go_field : Field
go_field = field "GO" 0 0 rw'

abbrev pub burst_field : Field
burst_field = field "BURST_LEN" 11 4 rw'

abbrev pub channel_field : Field
channel_field = field "CHANNEL" 15 12 rw'

abbrev pub idle_field : Field
idle_field = field "IDLE" 0 0 ro

abbrev pub busy_field : Field
busy_field = field "BUSY" 1 1 ro

abbrev pub done_field : Field
done_field = field "DONE" 2 2 ro

abbrev pub beats_field : Field
beats_field = field "BEATS" 23 8 ro

abbrev pub dma_ctrl : Register
dma_ctrl = record {
  name = "DMA.CTRL";
  address = 0x40000000 + 0x00;
  reset = 0;
  access = rw';
  fields =
      go_field
      ∷ field "ABORT" 1 1 rw'
      ∷ field "IRQ_EN" 2 2 rw'
      ∷ burst_field
      ∷ channel_field
      ∷ field "MODE" 17 16 rw'
      ∷ [];
}

abbrev pub dma_status : Register
dma_status = record {
  name = "DMA.STATUS";
  address = 0x40000000 + 0x04;
  reset = 1;
  access = ro;
  fields = idle_field ∷ busy_field ∷ done_field ∷ beats_field ∷ [];
}

abbrev pub dma_irq_status : Register
dma_irq_status = record {
  name = "DMA.IRQ_STATUS";
  address = 0x40000000 + 0x08;
  reset = 0;
  access = rw';
  fields = field "DONE_IRQ" 0 0 w1c ∷ field "ERR_IRQ" 1 1 w1c ∷ field "OVERFLOW" 2 2 w1c ∷ [];
}

abbrev pub dma_src_addr : Register
dma_src_addr = record {
  name = "DMA.SRC_ADDR";
  address = 0x40000000 + 0x0C;
  reset = 0;
  access = rw';
  fields = field "ADDR" 31 0 rw' ∷ [];
}

abbrev pub dma_dst_addr : Register
dma_dst_addr = record {
  name = "DMA.DST_ADDR";
  address = 0x40000000 + 0x10;
  reset = 0;
  access = rw';
  fields = field "ADDR" 31 0 rw' ∷ [];
}

abbrev pub dma_xfer_len : Register
dma_xfer_len = record {
  name = "DMA.XFER_LEN";
  address = 0x40000000 + 0x14;
  reset = 0;
  access = rw';
  fields = field "BYTES" 23 0 rw' ∷ [];
}

abbrev pub pcie_link_status : Register
pcie_link_status = record {
  name = "PCIE.LINK_STATUS";
  address = 0x50000000 + 0x00;
  reset = 0;
  access = ro;
  fields =
      field "LINK_UP" 0 0 ro
      ∷ field "SPEED" 3 1 ro
      ∷ field "WIDTH" 9 4 ro
      ∷ field "LTSSM" 15 10 ro
      ∷ [];
}

abbrev pub pcie_link_ctrl : Register
pcie_link_ctrl = record {
  name = "PCIE.LINK_CTRL";
  address = 0x50000000 + 0x04;
  reset = 0;
  access = rw';
  fields = field "RETRAIN" 0 0 rw' ∷ field "TARGET_SPEED" 3 1 rw' ∷ [];
}

abbrev pub pcie_err_status : Register
pcie_err_status = record {
  name = "PCIE.ERR_STATUS";
  address = 0x50000000 + 0x08;
  reset = 0;
  access = rw';
  fields =
      field "CORRECTABLE" 0 0 w1c ∷ field "FATAL" 1 1 w1c ∷ field "REPLAY_TIMEOUT" 2 2 w1c ∷ [];
}

abbrev pub register_map : List Register
register_map =
    dma_ctrl ∷ dma_status ∷ dma_irq_status ∷ dma_src_addr ∷ dma_dst_addr ∷ dma_xfer_len
    ∷ pcie_link_status ∷ pcie_link_ctrl ∷ pcie_err_status ∷ []
