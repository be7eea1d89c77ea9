-- ===== src/Benchmark.antt =====
-- benchmarks/bench_main.cpp: the workload of its suite, and the two ways to read the fields of a
-- register. What it measures in wall-clock time and prints is not modelled.
pub mod Status
pub mod Polling
pub mod Reads
pub mod Suite
mod Tests
use soc_validation_framework.Prelude.{ℕ, zero, suc, ◌+◌, ◌≢◌, ◌==◌, some, if◌then◌else◌}
use soc_validation_framework.Word.{u32}
use soc_validation_framework.Bus.{Result, ok, err, M, ◌>>=◌, ◌>>◌, pure, Transport}
use soc_validation_framework.Device
use soc_validation_framework.Device.{EmulatedDevice, emulated, set_transfer_latency}
use soc_validation_framework.Protocol
use soc_validation_framework.Protocol.{
  Double, ProtocolTransport, jtag_cost, protocol, reset_counters,
}
use soc_validation_framework.Registers.{ro, get, set}
use soc_validation_framework.Registers.Map.{
  dma_ctrl, dma_status, go_field, burst_field, idle_field, busy_field, done_field, beats_field,
}
use soc_validation_framework.Accessor.{read, write_only}

pub ctrl_writable : dma_ctrl.access ≢ ro
ctrl_writable e = cc

-- The change of `Workload`: `set_GO(1).set_BURST_LEN(8)`.
abbrev pub go_burst : ℕ → ℕ
go_burst raw = set burst_field 8 (set go_field 1 raw)

module _ {S : Type 0} (bus : Transport S) where
  -- The polling loop: it reads the status until DONE is set, at most so many times.
  unfoldable pub poll : ℕ → M S (Unit {0})
  poll zero = pure tt
  poll (suc left) = do
    raw ← read bus dma_status
    let rest = poll left
    if get done_field raw == 0 then rest else pure tt

  -- `Workload` on a transport, after its latency has been set.
  unfoldable pub transfer : ℕ → M S (Unit {0})
  unfolding poll
  transfer polls = do write_only bus dma_ctrl ctrl_writable go_burst; poll polls

  -- The loop that reads the status anew for each of its fields.
  unfoldable pub read_naive : (rounds sink : ℕ) → M S ℕ
  read_naive zero sink = pure sink
  read_naive (suc rounds) sink = do
    a ← read bus dma_status
    let sink1 = u32 (sink + get idle_field a)
    b ← read bus dma_status
    let sink2 = u32 (sink1 + get busy_field b)
    c ← read bus dma_status
    let sink3 = u32 (sink2 + get done_field c)
    e ← read bus dma_status
    read_naive rounds (u32 (sink3 + get beats_field e))

  -- The loop that reads it once.
  unfoldable pub read_coalesced : (rounds sink : ℕ) → M S ℕ
  read_coalesced zero sink = pure sink
  read_coalesced (suc rounds) sink = do
    snapshot ← read bus dma_status
    let sink1 = u32 (sink + get idle_field snapshot)
    let sink2 = u32 (sink1 + get busy_field snapshot)
    let sink3 = u32 (sink2 + get done_field snapshot)
    read_coalesced rounds (u32 (sink3 + get beats_field snapshot))

-- `Workload` on its own device.
unfoldable pub workload : Result (Unit {0})
unfolding transfer
workload = (transfer emulated 200 (set_transfer_latency 4 Device.new)).0

module _ (f : Double) where
  open f use {Value, of_ℕ, divide}

  -- The counters of a `JtagTransport` after a loop over it, which begins with `ResetCounters`.
  pub record Counted : Type 0 where
    pub sink : Result ℕ
    pub accesses : ℕ
    pub bus_us : Value

  unfoldable pub count_reads : M (ProtocolTransport f EmulatedDevice) ℕ → Result Counted
  count_reads loop = elim (Protocol.new f (some Device.new) (jtag_cost f) "jtag") [
    | err e ↦ err e
    | ok jtag ↦
        let (sink, jtag') = loop (reset_counters f jtag) in
        ok (record {
          sink = sink;
          accesses = jtag'.accesses;
          bus_us = divide jtag'.simulated_ns (of_ℕ 1000);
        })
  ]

  -- The two halves of `BenchmarkFieldReads`.
  unfoldable pub benchmark_naive : ℕ → Result Counted
  unfolding count_reads read_naive
  benchmark_naive rounds = count_reads (read_naive (protocol f emulated) rounds 0)

  unfoldable pub benchmark_coalesced : ℕ → Result Counted
  unfolding count_reads read_coalesced
  benchmark_coalesced rounds = count_reads (read_coalesced (protocol f emulated) rounds 0)
