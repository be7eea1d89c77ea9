-- ===== src/Region.antt =====
-- `MappedRegion` and `DeviceHandle` of include/soc/transport.hpp: objects that own heap blocks.
-- A world is the heap, the live objects by number, and the transport's state. Deleting a block that
-- is not allocated, reading outside a block and using an object that does not live are undefined in
-- the source and end in `undefined_access` here. Allocation never fails.
mod Owned
mod Leaks
mod Bounds
mod Tests
use soc_validation_framework.Prelude.{
  ℕ, suc, ◌+◌, List, Option, none, some, Bool, true, false, ◌==◌, leb, if◌then◌else◌, get_elem?,
  replicate,
}
use soc_validation_framework.Bus.{
  Exception, undefined_access, invalid_argument, out_of_range, Result, ok, err, M, Buffer,
  Transport,
}

pub record MappedRegion : Type 0 where
  pub pointer : Option ℕ
  pub words : ℕ
  pub base : ℕ

-- What the default constructor makes, and what a move leaves behind.
abbrev pub emptied : MappedRegion
emptied = record { pointer = none; words = 0; base = 0 }

pub record World (S : Type 0) : Type 0 where
  pub next : ℕ
  pub block : ℕ → Option (List ℕ)
  pub object : ℕ → Option MappedRegion
  pub device : S

abbrev pub put : {A : Type 0} → (ℕ → Option A) → ℕ → Option A → ℕ → Option A
put f i v x = if x == i then v else f x

-- What a client does with regions, one object operation after another.
pub data Operation : Type 0 where
  constructs : (i base words : ℕ) → Operation
  destroys : ℕ → Operation
  moves : (i j : ℕ) → Operation
  assigns : (i j : ℕ) → Operation

module _ {S : Type 0} where
  -- `delete[]`.
  unfoldable pub release : Option ℕ → M (World S) (Unit {0})
  release none w = (ok tt, w)
  release (some p) w = elim (w.block p) [
    | none ↦ (err undefined_access, w)
    | some _ ↦ (ok tt, record w { block = put w.block p none })
  ]

  -- What the constructor of object `i` does once the fill of its new block ended: it takes the
  -- block, or deletes it and throws on.
  unfoldable pub adopt :
      (i base words : ℕ) → Result (Unit {0}) → Buffer → S → M (World S) (Unit {0})
  adopt i base words (ok done) buffer device w =
      let region : MappedRegion = record { pointer = some w.next; words = words; base = base } in
      (
        ok done,
        record w {
          next = suc w.next;
          block = put w.block w.next buffer;
          object = put w.object i (some region);
          device = device;
        },
      )
  adopt i base words (err e) buffer device w =
      let p = w.next in
      let filled = record w { next = suc p; block = put w.block p buffer; device = device } in
      let (freed, w') = release (some p) filled in
      elim freed [ err fault ↦ (err fault, w') | ok _ ↦ (err e, w') ]

  -- The constructor that maps a window, for the object `i`.
  unfoldable pub construct : Transport S → ℕ → ℕ → ℕ → M (World S) (Unit {0})
  construct bus i base words w =
      let (r, buffer, device) = bus.read_block base (some (replicate words 0)) words w.device in
      adopt i base words r buffer device w

  -- The destructor.
  unfoldable pub destroy : ℕ → M (World S) (Unit {0})
  destroy i w = elim (w.object i) [
    | none ↦ (err undefined_access, w)
    | some region ↦
        let (r, w') = release region.pointer w in (r, record w' { object = put w'.object i none })
  ]

  -- The move constructor, for the object `i`.
  unfoldable pub move_construct : (i j : ℕ) → M (World S) (Unit {0})
  move_construct i j w = elim (w.object j) [
    | none ↦ (err undefined_access, w)
    | some other ↦ (ok tt, record w { object = put (put w.object j (some emptied)) i (some other) })
  ]

  -- The move assignment, to the object `i`.
  unfoldable pub move_assign : (i j : ℕ) → M (World S) (Unit {0})
  move_assign i j w = if i == j then (ok tt, w) else elim (w.object i) [
    | none ↦ (err undefined_access, w)
    | some region ↦ elim (w.object j) [
      | none ↦ (err undefined_access, w)
      | some other ↦
          let (r, w') = release region.pointer w in
          (r, record w' { object = put (put w'.object j (some emptied)) i (some other) })
    ]
  ]

  -- `at`.
  unfoldable pub at : MappedRegion → ℕ → World S → Result ℕ
  at region index w =
      if leb region.words index
      then err (out_of_range "MappedRegion index out of range")
      else elim region.pointer [
        | none ↦ err undefined_access
        | some p ↦ elim (w.block p) [
          | none ↦ err undefined_access
          | some contents ↦ elim (get_elem? contents index) [
            | none ↦ err undefined_access
            | some word ↦ ok word
          ]
        ]
      ]

  unfoldable pub execute : Transport S → Operation → M (World S) (Unit {0})
  execute bus (constructs i base words) = construct bus i base words
  execute bus (destroys i) = destroy i
  execute bus (moves i j) = move_construct i j
  execute bus (assigns i j) = move_assign i j

-- The constructor of `DeviceHandle` over a possibly empty `unique_ptr`.
unfoldable pub device_handle : {T : Type 0} → Option T → Result T
device_handle none = err (invalid_argument "DeviceHandle requires a transport")
device_handle (some transport) = ok transport

-- `Map`: the factory's result is constructed in the caller's object `i`.
unfoldable pub map_window : {S : Type 0} → Transport S → (i base words : ℕ) → M (World S) (Unit {0})
map_window bus i base words = construct bus i base words
