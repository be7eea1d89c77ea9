-- ===== src/Benchmark/Reads.antt =====
-- The two loops of `BenchmarkFieldReads` on a device at rest: the same sum, a quarter of the bus.
use soc_validation_framework.Prelude.{
  ℕ, zero, suc, ◌+◌, ◌*◌, ◌^◌, ◌<◌, ◌≡◌, refl, sym, ◌∙◌, ap, false, arith,
}
use soc_validation_framework.Word.{u32, u64}
use soc_validation_framework.Bus.{Result, ok, err, M, ◌>>=◌}
use soc_validation_framework.Device
use soc_validation_framework.Device.{EmulatedDevice, emulated, tick}
use soc_validation_framework.Device.Policy
use soc_validation_framework.Device.Policy.{policy_for}
use soc_validation_framework.Device.Access.{read32_decoded}
use soc_validation_framework.Protocol.{
  Double, ProtocolCost, ProtocolTransport, ns_per_access, jtag_cost, protocol, charge, read32,
  reset_counters,
}
use soc_validation_framework.Protocol
use soc_validation_framework.Registers.{get, mask}
use soc_validation_framework.Registers.Map.{
  dma_status, idle_field, busy_field, done_field, beats_field,
}
use soc_validation_framework.Accessor.{read}
use soc_validation_framework.Benchmark.{
  read_naive, read_coalesced, Counted, count_reads, benchmark_naive, benchmark_coalesced,
}

-- The engine has not run, and its status is the one of a reset.
pub record IsIdle (d : EmulatedDevice) : Type 0 where
  pub stopped : d.dma_running ≡ false
  pub status : d.storage Policy.dma_status ≡ 1

tick-IsIdle : (d : EmulatedDevice) → IsIdle d → IsIdle (tick d)
unfolding tick
tick-IsIdle d i = record {
  stopped = ground (arith, i.stopped);
  status = ground (arith, i.stopped, i.status);
}

module _ (f : Double) where
  open f use {Value, of_ℕ, plus, divide}

  -- The transport after one read.
  abbrev once_read : ProtocolTransport f EmulatedDevice → ProtocolTransport f EmulatedDevice
  once_read q = record {
    backing = tick q.backing;
    cost = q.cost;
    label = q.label;
    simulated_ns = plus q.simulated_ns (ns_per_access f q.cost);
    accesses = u64 (q.accesses + 1);
  }

  unfoldable many_reads :
      ℕ → ProtocolTransport f EmulatedDevice → ProtocolTransport f EmulatedDevice
  many_reads zero q = q
  many_reads (suc n) q = many_reads n (once_read q)

  read-IsIdle :
      (q : ProtocolTransport f EmulatedDevice)
      → IsIdle q.backing
      → read (protocol f emulated) dma_status q ≡ (ok 1, once_read q)
  unfolding read read32 charge policy_for
  read-IsIdle q i = ground (
    arith,
    read32_decoded Policy.dma_status q.backing (_, refl),
    (tick-IsIdle q.backing i).status,
  )

  -- What follows a read goes on with the status of an engine that has not run.
  bind_read :
      {A : Type 0} (k : ℕ → M (ProtocolTransport f EmulatedDevice) A)
      (q : ProtocolTransport f EmulatedDevice)
      → IsIdle q.backing
      → (read (protocol f emulated) dma_status >>= k) q ≡ k 1 (once_read q)
  bind_read {A} k q i =
      let next : Result ℕ × ProtocolTransport f EmulatedDevice
          → Result A × ProtocolTransport f EmulatedDevice =
        λ r. elim r.0 [ err e ↦ (err e, r.1) | ok a ↦ k a r.1 ] in
      ap next (read-IsIdle q i)

  four : (n : ℕ) → 4 * suc n ≡ suc (suc (suc (suc (4 * n))))
  four n = omega arith

  -- The additions of a round, each to 32 digits.
  abbrev sum_round : ℕ → ℕ
  sum_round sink = u32 (
      u32 (u32 (u32 (sink + get idle_field 1) + get busy_field 1) + get done_field 1)
      + get beats_field 1)

  sum_round-eq : (sink : ℕ) → sum_round sink ≡ u32 (sink + 1)
  unfolding get mask
  sum_round-eq sink = omega arith

  read_coalesced-eq :
      (rounds sink : ℕ) (q : ProtocolTransport f EmulatedDevice)
      → IsIdle q.backing
      → sink < 2 ^ 32
      → read_coalesced (protocol f emulated) rounds sink q
        ≡ (ok (u32 (sink + rounds)), many_reads rounds q)
  unfolding read_coalesced many_reads
  read_coalesced-eq zero sink q i h =
      let same : sink ≡ u32 (sink + 0) = omega arith in ap (λ (t : ℕ). (ok t, q)) same
  read_coalesced-eq (suc rounds) sink q i h =
      let same : u32 (sum_round sink + rounds) ≡ u32 (sink + suc rounds) =
        omega (arith, sum_round-eq sink) in
      bind_read
        (λ s. read_coalesced (protocol f emulated) rounds (
          u32 (
            u32 (u32 (u32 (sink + get idle_field s) + get busy_field s) + get done_field s)
            + get beats_field s)))
        q i
      ∙ read_coalesced-eq rounds (sum_round sink) (once_read q) (tick-IsIdle q.backing i)
          (omega (arith, sum_round-eq sink))
      ∙ ap (λ (t : ℕ). (ok t, many_reads rounds (once_read q))) same

  -- The four reads of a round, and what follows each.
  module _ (rounds : ℕ) where
    abbrev beats_next : (sink e : ℕ) → M (ProtocolTransport f EmulatedDevice) ℕ
    beats_next sink e = read_naive (protocol f emulated) rounds (u32 (sink + get beats_field e))

    abbrev done_next : (sink c : ℕ) → M (ProtocolTransport f EmulatedDevice) ℕ
    done_next sink c =
        read (protocol f emulated) dma_status >>= beats_next (u32 (sink + get done_field c))

    abbrev busy_next : (sink b : ℕ) → M (ProtocolTransport f EmulatedDevice) ℕ
    busy_next sink b =
        read (protocol f emulated) dma_status >>= done_next (u32 (sink + get busy_field b))

    abbrev idle_next : (sink a : ℕ) → M (ProtocolTransport f EmulatedDevice) ℕ
    idle_next sink a =
        read (protocol f emulated) dma_status >>= busy_next (u32 (sink + get idle_field a))

  read_naive-eq :
      (rounds sink : ℕ) (q : ProtocolTransport f EmulatedDevice)
      → IsIdle q.backing
      → sink < 2 ^ 32
      → read_naive (protocol f emulated) rounds sink q
        ≡ (ok (u32 (sink + rounds)), many_reads (4 * rounds) q)
  unfolding read_naive many_reads
  read_naive-eq zero sink q i h =
      let same : sink ≡ u32 (sink + 0) = omega arith in ap (λ (t : ℕ). (ok t, q)) same
  read_naive-eq (suc rounds) sink q0 i0 h =
      let same : u32 (sum_round sink + rounds) ≡ u32 (sink + suc rounds) =
        omega (arith, sum_round-eq sink) in
      let q1 = once_read q0 in
      let i1 = tick-IsIdle q0.backing i0 in
      let q2 = once_read q1 in
      let i2 = tick-IsIdle q1.backing i1 in
      let q3 = once_read q2 in
      let i3 = tick-IsIdle q2.backing i2 in
      let i4 = tick-IsIdle q3.backing i3 in
      bind_read (idle_next rounds sink) q0 i0
      ∙ bind_read (busy_next rounds (u32 (sink + get idle_field 1))) q1 i1
      ∙ bind_read (done_next rounds (u32 (u32 (sink + get idle_field 1) + get busy_field 1))) q2 i2
      ∙ bind_read
          (beats_next rounds
            (u32 (u32 (u32 (sink + get idle_field 1) + get busy_field 1) + get done_field 1)))
          q3 i3
      ∙ read_naive-eq rounds (sum_round sink) (once_read q3) i4 (omega (arith, sum_round-eq sink))
      ∙ ap (λ (t : ℕ). (ok t, many_reads (4 * rounds) (once_read q3))) same
      ∙ ap (λ n. (ok (u32 (sink + suc rounds)), many_reads n q0)) (sym (four rounds))

  -- A time to which the price of so many accesses is added, one after the other.
  unfoldable pub spend : ℕ → Value → Value → Value
  spend zero price t = t
  spend (suc n) price t = spend n price (plus t price)

  many_reads-counters :
      (n : ℕ) (q : ProtocolTransport f EmulatedDevice)
      → q.accesses < 2 ^ 64
      → ((many_reads n q).accesses ≡ u64 (q.accesses + n))
        × ((many_reads n q).simulated_ns ≡ spend n (ns_per_access f q.cost) q.simulated_ns)
  unfolding many_reads spend
  many_reads-counters zero q h = (omega arith, refl)
  many_reads-counters (suc n) q h =
      let (count, time) = many_reads-counters n (once_read q) (omega arith) in
      (omega (arith, count), time)

  -- The counters of a JTAG transport after so many accesses, and the sum of the fields read.
  abbrev pub expected : (sum accesses : ℕ) → Counted f
  expected sum accesses = record {
    sink = ok (u32 sum);
    accesses = u64 accesses;
    bus_us = divide (spend accesses (ns_per_access f (jtag_cost f)) (of_ℕ 0)) (of_ℕ 1000);
  }

  abbrev fresh : ProtocolTransport f EmulatedDevice
  fresh = record {
    backing = Device.new;
    cost = jtag_cost f;
    label = "jtag";
    simulated_ns = of_ℕ 0;
    accesses = 0;
  }

  new-IsIdle : IsIdle Device.new
  unfolding Device.new
  new-IsIdle = record { stopped = refl; status = refl }

  count_reads-eq :
      (loop : M (ProtocolTransport f EmulatedDevice) ℕ) (sum n : ℕ)
      → loop fresh ≡ (ok (u32 (0 + sum)), many_reads n fresh)
      → count_reads f loop ≡ ok (expected sum n)
  unfolding count_reads Protocol.new reset_counters
  count_reads-eq loop sum n e =
      let (count, time) = many_reads-counters n fresh (omega arith) in
      let whole : u32 (0 + sum) ≡ u32 sum = omega arith in
      let counted : (many_reads n fresh).accesses ≡ u64 n = omega (arith, count) in
      ap (λ r. ok (result r.0 r.1.accesses r.1.simulated_ns)) e
      ∙ ap
          (λ (t : ℕ).
            ok (result (ok t) (many_reads n fresh).accesses (many_reads n fresh).simulated_ns))
          whole
      ∙ ap (λ (a : ℕ). ok (result (ok (u32 sum)) a (many_reads n fresh).simulated_ns)) counted
      ∙ ap (λ t. ok (result (ok (u32 sum)) (u64 n) t)) time
    where
      result : Result ℕ → ℕ → Value → Counted f
      result sink accesses ns = record {
        sink = sink;
        accesses = accesses;
        bus_us = divide ns (of_ℕ 1000);
      }

  -- For any number of rounds on a new device behind a new JTAG transport, both ways to read the
  -- four fields of DMA_STATUS return and sum up the same; field by field takes four bus accesses
  -- a round and the time of as many, one read takes one. The counters wrap at 2^64 and the sum
  -- at 2^32.
  pub benchmark_reads :
      (rounds : ℕ)
      → (benchmark_naive f rounds ≡ ok (expected rounds (4 * rounds)))
        × (benchmark_coalesced f rounds ≡ ok (expected rounds rounds))
  unfolding benchmark_naive benchmark_coalesced
  benchmark_reads rounds = (
    count_reads-eq (read_naive (protocol f emulated) rounds 0) rounds (4 * rounds)
        (read_naive-eq rounds 0 fresh new-IsIdle (omega arith)),
    count_reads-eq (read_coalesced (protocol f emulated) rounds 0) rounds rounds
        (read_coalesced-eq rounds 0 fresh new-IsIdle (omega arith)),
  )
