-- ===== src/Region/Tests.antt =====
-- Regions at concrete inputs: map the DMA window, move it, destroy it.
use soc_validation_framework.Prelude.{
  ℕ, ◌≤◌, ◌<◌, ◌≡◌, refl, List, [], ◌∷◌, none, some, ◌⊎◌, get_elem?, arith,
}
use soc_validation_framework.Bus.{ok, err, out_of_range}
use soc_validation_framework.Device.{EmulatedDevice, emulated, new, read_block, read32}
use soc_validation_framework.Device.Policy.{policy_for}
use soc_validation_framework.Device.Block.Read.{length-read_block}
use soc_validation_framework.Region.{
  MappedRegion, World, Operation, constructs, destroys, moves, assigns, at, construct, adopt,
  execute, destroy, move_construct, move_assign, release,
}
use soc_validation_framework.Region.Owned.{IsOwned}
use soc_validation_framework.Region.Bounds.{at_lem}
use soc_validation_framework.Region.Leaks.{
  IsShaped, IsLegal, IsLive, AllLegal, results, outcomes, run, run-IsOwned, run_no_leak,
}

emulated-IsShaped : IsShaped emulated
emulated-IsShaped = record { shaped = length-read_block }

abbrev start : World EmulatedDevice
start = record { next = 0; block = λ p. none; object = λ i. none; device = new }

start-IsOwned : IsOwned start
start-IsOwned = record {
  fresh = λ p h. refl;
  held = λ i p r live e. absurd (ground arith);
  alone = λ i j p r q live. absurd (ground arith);
  kept = λ p c e. absurd (ground arith);
  bare = λ i r live. absurd (ground arith);
}

-- Two windows, the second of which ends where nothing is decoded; then a move, and the end.
abbrev session : List Operation
session =
    constructs 0 0x40000000 2
    ∷ constructs 1 0x40000000 64
    ∷ moves 1 0
    ∷ assigns 0 1
    ∷ assigns 0 0
    ∷ destroys 0
    ∷ destroys 1
    ∷ []

session-AllLegal : AllLegal emulated session start
unfolding AllLegal IsLegal IsLive execute construct adopt destroy move_construct move_assign release
    read_block read32 policy_for
session-AllLegal = (
  refl,
  (
    refl,
    (
      (refl, (_, refl)),
      (((_, refl), (_, refl)), (((_, refl), (_, refl)), ((_, refl), ((_, refl), tt)))),
    ),
  ),
)

run-IsOwned_example :
    (results emulated session start ≡ outcomes emulated session start)
    × IsOwned (run emulated session start)
run-IsOwned_example =
    run-IsOwned emulated session start emulated-IsShaped start-IsOwned session-AllLegal

session_ends : (i : ℕ) → (run emulated session start).object i ≡ none
unfolding run execute construct adopt destroy move_construct move_assign release read_block read32
    policy_for
session_ends i = ground arith

run_no_leak_example : (run emulated session start).block 0 ≡ none
run_no_leak_example =
    run_no_leak emulated session start emulated-IsShaped start-IsOwned session-AllLegal session_ends
      0

abbrev mapping : List Operation
mapping = constructs 0 0x40000000 2 ∷ []

abbrev mapped : World EmulatedDevice
mapped = run emulated mapping start

abbrev window : MappedRegion
window = record { pointer = some 0; words = 2; base = 0x40000000 }

mapped-IsOwned : IsOwned mapped
unfolding AllLegal IsLegal
mapped-IsOwned = (run-IsOwned emulated mapping start emulated-IsShaped start-IsOwned (refl, tt)).1

mapped_window : mapped.object 0 ≡ some window
unfolding run execute construct adopt destroy move_construct move_assign release read_block read32
    policy_for
mapped_window = refl

at_lem_example :
    ((2 ≤ 1) × (at window 1 mapped ≡ err (out_of_range "MappedRegion index out of range")))
    ⊎ ((1 < 2)
        × ((p : ℕ) × (x : ℕ) × (contents : List ℕ) × (some 0 ≡ some p)
            × (mapped.block p ≡ some contents)
            × (get_elem? contents 1 ≡ some x)
            × (at window 1 mapped ≡ ok x)))
at_lem_example = at_lem mapped 0 1 window mapped-IsOwned mapped_window
