-- ===== src/Protocol/Factory.antt =====
-- src/transports.cpp: `MakeTransport`. The object behind the returned pointer is the emulated
-- device or one of the three protocols around it, and a call goes by its class.
use Prim.Native.String.{String, ◌++◌ as str_append}
use mathlib.Core.Logic.{◌≢◌}
use text.Mathlib.Text.{◌==◌ as str_eq}
use text.Mathlib.TextEquality.{eq_iff}
use soc_validation_framework.Prelude.{ℕ, ◌≡◌, refl, some, if◌then◌else◌, arith}
use soc_validation_framework.Bus.{
  invalid_argument, Result, ok, err, Transport, Exception, M, Buffer,
}
use soc_validation_framework.Bus.Program.{
  Command, read_word, write_word, read_words, write_words, Program, exec, run_program,
  run_program_transparent,
}
use soc_validation_framework.Device.{EmulatedDevice, emulated}
use soc_validation_framework.Device
use soc_validation_framework.Protocol.{
  Double, ProtocolTransport, new, protocol, charge, read32, write32, read_block, write_block,
  jtag_cost, i2c_cost, spi_cost,
}

-- The classes that the factory makes: `protocol_of` is `JtagTransport`, `I2cTransport` or
-- `SpiTransport`, which differ in their cost and label only.
pub data AnyTransport (f : Double) : Type 0 where
  bare : EmulatedDevice → AnyTransport f
  protocol_of : ProtocolTransport f EmulatedDevice → AnyTransport f

abbrev pub unknown_kind : String → Exception
unknown_kind kind =
    invalid_argument
      (str_append (str_append "unknown transport: " kind) " (expected emulated|jtag|i2c|spi)")

module _ (f : Double) where
  wrap : Result (ProtocolTransport f EmulatedDevice) → Result (AnyTransport f)
  wrap (ok p) = ok (protocol_of p)
  wrap (err e) = err e

  unfoldable pub make_transport : String → Result (AnyTransport f)
  unfolding wrap
  make_transport kind =
      if str_eq kind "emulated"
      then ok (bare Device.new)
      else if str_eq kind "jtag"
      then wrap (new f (some Device.new) (jtag_cost f) "jtag")
      else if str_eq kind "i2c"
      then wrap (new f (some Device.new) (i2c_cost f) "i2c")
      else if str_eq kind "spi"
      then wrap (new f (some Device.new) (spi_cost f) "spi")
      else err (unknown_kind kind)

  -- The device inside.
  pub device_of : AnyTransport f → EmulatedDevice
  device_of (bare d) = d
  device_of (protocol_of p) = p.backing

  any_read32 : ℕ → M (AnyTransport f) ℕ
  any_read32 address (bare d) = let (r, d') = emulated.read32 address d in (r, bare d')
  any_read32 address (protocol_of p) =
      let (r, p') = (protocol f emulated).read32 address p in (r, protocol_of p')

  any_write32 : ℕ → ℕ → M (AnyTransport f) (Unit {0})
  any_write32 address value (bare d) =
      let (r, d') = emulated.write32 address value d in (r, bare d')
  any_write32 address value (protocol_of p) =
      let (r, p') = (protocol f emulated).write32 address value p in (r, protocol_of p')

  any_read_block : ℕ → Buffer → ℕ → AnyTransport f → Result (Unit {0}) × Buffer × AnyTransport f
  any_read_block address out count (bare d) =
      let (r, out', d') = emulated.read_block address out count d in (r, out', bare d')
  any_read_block address out count (protocol_of p) =
      let (r, out', p') = (protocol f emulated).read_block address out count p in
      (r, out', protocol_of p')

  any_write_block : ℕ → Buffer → ℕ → M (AnyTransport f) (Unit {0})
  any_write_block address words count (bare d) =
      let (r, d') = emulated.write_block address words count d in (r, bare d')
  any_write_block address words count (protocol_of p) =
      let (r, p') = (protocol f emulated).write_block address words count p in (r, protocol_of p')

  any_name : AnyTransport f → String
  any_name (bare d) = emulated.name d
  any_name (protocol_of p) = (protocol f emulated).name p

  -- A virtual call goes to the class of the object.
  unfoldable pub any : Transport (AnyTransport f)
  unfolding any_read32 any_write32 any_read_block any_write_block any_name
  any = record {
    read32 = any_read32;
    write32 = any_write32;
    read_block = any_read_block;
    write_block = any_write_block;
    name = any_name;
  }

  any_reply :
      (c : Command) (t : AnyTransport f) → (exec any c t).0 ≡ (exec emulated c (device_of t)).0
  unfolding any exec device_of read32 write32 read_block write_block charge
  any_reply (read_word address) (bare d) = refl
  any_reply (read_word address) (protocol_of p) = refl
  any_reply (write_word address value) (bare d) = refl
  any_reply (write_word address value) (protocol_of p) = refl
  any_reply (read_words address out count) (bare d) = refl
  any_reply (read_words address out count) (protocol_of p) = refl
  any_reply (write_words address words count) (bare d) = refl
  any_reply (write_words address words count) (protocol_of p) = refl

  any_inside :
      (c : Command) (t : AnyTransport f)
      → device_of (exec any c t).1 ≡ (exec emulated c (device_of t)).1
  unfolding any exec device_of read32 write32 read_block write_block charge
  any_inside (read_word address) (bare d) = refl
  any_inside (read_word address) (protocol_of p) = refl
  any_inside (write_word address value) (bare d) = refl
  any_inside (write_word address value) (protocol_of p) = refl
  any_inside (read_words address out count) (bare d) = refl
  any_inside (read_words address out count) (protocol_of p) = refl
  any_inside (write_words address words count) (bare d) = refl
  any_inside (write_words address words count) (protocol_of p) = refl

  made_new :
      (kind : String) (t : AnyTransport f) → make_transport kind ≡ ok t → device_of t ≡ Device.new
  unfolding make_transport new device_of
  made_new kind t made = ground arith

  -- Whatever transport the factory makes, a program gets from it what it gets from a newly
  -- constructed emulated device, and leaves the device inside in the same state.
  pub run_program-make_transport :
      {A : Type 0} (kind : String) (prog : Program A) (t : AnyTransport f)
      → make_transport kind ≡ ok t
      → ((run_program any prog t).0 ≡ (run_program emulated prog Device.new).0)
        × (device_of (run_program any prog t).1 ≡ (run_program emulated prog Device.new).1)
  run_program-make_transport kind prog t made = rw (← made_new kind t made) (
      run_program_transparent any emulated device_of
        (record { reply = any_reply; inside = any_inside }) prog t)

  -- The factory throws for every kind but the four that it knows.
  pub make_transport_unknown :
      (kind : String)
      → kind ≢ "emulated"
      → kind ≢ "jtag"
      → kind ≢ "i2c"
      → kind ≢ "spi"
      → make_transport kind ≡ err (unknown_kind kind)
  unfolding make_transport
  make_transport_unknown kind e j i s =
      ground
        (arith, eq_iff kind "emulated", eq_iff kind "jtag", eq_iff kind "i2c", eq_iff kind "spi")
