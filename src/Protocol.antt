-- ===== src/Protocol.antt =====
-- include/soc/transports.hpp: `ProtocolCost`, `ProtocolTransport` and the three protocols.
-- `double` is a parameter: its values, the operations that the code uses, and nothing about them.
pub mod Account
pub mod Factory
pub mod Tests
use Prim.Native.String.{String}
use soc_validation_framework.Prelude.{ℕ, ◌+◌, Option, none, some}
use soc_validation_framework.Word.{u64}
use soc_validation_framework.Bus.{
  Exception, invalid_argument, Result, ok, err, M, Buffer, Transport,
}

-- `scaled m k` is the literal `m` times ten to the minus `k`; `of_ℕ` is the cast from an integer.
pub record Double : Type 1 where
  pub Value : Type 0
  pub of_ℕ : ℕ → Value
  pub scaled : ℕ → ℕ → Value
  pub plus : Value → Value → Value
  pub times : Value → Value → Value
  pub divide : Value → Value → Value

pub record ProtocolCost (f : Double) : Type 0 where
  pub bits_per_access : ℕ
  pub clock_hz : f.Value

pub record ProtocolTransport (f : Double) (S : Type 0) : Type 0 where
  pub backing : S
  pub cost : ProtocolCost f
  pub label : String
  pub simulated_ns : f.Value
  pub accesses : ℕ

module _ (f : Double) where
  open f use {Value, of_ℕ, scaled, plus, times, divide}

  unfoldable pub ns_per_access : ProtocolCost f → Value
  ns_per_access c = times (divide (of_ℕ c.bits_per_access) c.clock_hz) (of_ℕ 1000000000)

  unfoldable pub ns_per_block : ProtocolCost f → ℕ → Value
  ns_per_block c count =
      plus (ns_per_access c) (times (times (scaled 25 2) (ns_per_access c)) (of_ℕ count))

  -- `JtagTransport`, `I2cTransport`, `SpiTransport`: the clocks are 10 MHz, 400 kHz and 25 MHz.
  abbrev pub jtag_cost : ProtocolCost f
  jtag_cost = record { bits_per_access = 40; clock_hz = of_ℕ 10000000 }

  abbrev pub i2c_cost : ProtocolCost f
  i2c_cost = record { bits_per_access = 45; clock_hz = of_ℕ 400000 }

  abbrev pub spi_cost : ProtocolCost f
  spi_cost = record { bits_per_access = 72; clock_hz = of_ℕ 25000000 }

module _ (f : Double) {S : Type 0} where
  open f use {Value, of_ℕ, plus}

  -- The constructor, on a `unique_ptr` that may be null.
  unfoldable pub new : Option S → ProtocolCost f → String → Result (ProtocolTransport f S)
  new none cost label = err (invalid_argument "transport requires a backing device")
  new (some device) cost label =
      ok (record {
        backing = device;
        cost = cost;
        label = label;
        simulated_ns = of_ℕ 0;
        accesses = 0;
      })

  -- What every method does before it forwards: time is added and the access counted.
  unfoldable pub charge : Value → ProtocolTransport f S → ProtocolTransport f S
  charge ns p = record p { simulated_ns = plus p.simulated_ns ns; accesses = u64 (p.accesses + 1) }

  unfoldable pub reset_counters : ProtocolTransport f S → ProtocolTransport f S
  reset_counters p = record p { simulated_ns = of_ℕ 0; accesses = 0 }

  module _ (device : Transport S) where
    unfoldable pub read32 : ℕ → M (ProtocolTransport f S) ℕ
    read32 address p =
        let q = charge (ns_per_access f p.cost) p in
        let (r, s) = device.read32 address q.backing in (r, record q { backing = s })

    unfoldable pub write32 : ℕ → ℕ → M (ProtocolTransport f S) (Unit {0})
    write32 address value p =
        let q = charge (ns_per_access f p.cost) p in
        let (r, s) = device.write32 address value q.backing in (r, record q { backing = s })

    unfoldable pub read_block :
        ℕ → Buffer → ℕ → ProtocolTransport f S → Result (Unit {0}) × Buffer × ProtocolTransport f S
    read_block address out count p =
        let q = charge (ns_per_block f p.cost count) p in
        let (r, out', s) = device.read_block address out count q.backing in
        (r, out', record q { backing = s })

    unfoldable pub write_block : ℕ → Buffer → ℕ → M (ProtocolTransport f S) (Unit {0})
    write_block address words count p =
        let q = charge (ns_per_block f p.cost count) p in
        let (r, s) = device.write_block address words count q.backing in
        (r, record q { backing = s })

    abbrev pub protocol : Transport (ProtocolTransport f S)
    protocol = record {
      read32 = read32;
      write32 = write32;
      read_block = read_block;
      write_block = write_block;
      name = λ p. p.label;
    }
