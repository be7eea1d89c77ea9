-- ===== src/Protocol/Tests.antt =====
-- Protocol transports at concrete inputs, with whole numbers for `double`.
use Prim.Native.String.{String}
use text.Mathlib.Text.{◌==◌ as str_eq}
use text.Mathlib.TextEquality.{eq_iff}
use soc_validation_framework.Prelude.{ℕ, ◌+◌, ◌*◌, ◌/◌, ◌^◌, ◌≡◌, refl, ◌≢◌, false}
use soc_validation_framework.Bus.{ok}
use soc_validation_framework.Bus.Program.{Program, return, call, read_word, write_word, run_program}
use soc_validation_framework.Device
use soc_validation_framework.Device.{EmulatedDevice, emulated}
use soc_validation_framework.Protocol.{Double, ProtocolTransport, jtag_cost, new}
use soc_validation_framework.Protocol.Factory.{
  protocol_of, device_of, any, make_transport, run_program-make_transport,
}

abbrev whole : Double
whole = record {
  Value = ℕ;
  of_ℕ = λ n. n;
  scaled = λ m k. m / 10 ^ k;
  plus = λ a b. a + b;
  times = λ a b. a * b;
  divide = λ a b. a / b;
}

abbrev jtag : ProtocolTransport whole EmulatedDevice
jtag = record {
  backing = Device.new;
  cost = jtag_cost whole;
  label = "jtag";
  simulated_ns = 0;
  accesses = 0;
}

-- Start a transfer, then make an access that no register decodes.
abbrev bring_up : Program (Unit {0})
bring_up = call (write_word 0x40000000 1) (λ _. call (read_word 0xDEADBEEF) (λ _. return tt))

made_jtag : make_transport whole "jtag" ≡ ok (protocol_of jtag)
unfolding make_transport new
made_jtag = refl

run_program-make_transport_example :
    ((run_program (any whole) bring_up (protocol_of jtag)).0
      ≡ (run_program emulated bring_up Device.new).0)
    × (device_of whole (run_program (any whole) bring_up (protocol_of jtag)).1
        ≡ (run_program emulated bring_up Device.new).1)
run_program-make_transport_example =
    run_program-make_transport whole "jtag" bring_up (protocol_of jtag) made_jtag

differs : (kind : String) → str_eq "usb" kind ≡ false → "usb" ≢ kind
differs kind apart e = let same = (eq_iff "usb" kind).1 e in cc (apart, same)
