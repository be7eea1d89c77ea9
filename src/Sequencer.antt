-- ===== src/Sequencer.antt =====
-- src/sequencer.cpp and include/soc/sequencer.hpp: registering tests and ordering them in levels.
-- `std::string` is `String`; a `std::map` and a `std::set` are lists sorted by name.
mod Keys
pub mod Counts
mod Layers
pub mod Declared
mod Levels
pub mod Order
pub mod Schedule
pub mod Suite
pub mod RunOne
pub mod Thread
pub mod Run
mod Tests
use Prim.Native.Nat.{Ordering}
use Prim.Native.String.{String, compare, ◌++◌ as str_append}
use text.Mathlib.Text.{◌==◌ as str_eq}
use soc_validation_framework.Prelude.{
  ℕ, zero, suc, List, [], ◌∷◌, ◌++◌, map, Option, none, some, Bool, true, false, ◌&&◌, ◌||◌, not,
  if◌then◌else◌, length,
}
use soc_validation_framework.Bus.{Exception, invalid_argument, Result, ok, err}

-- The part of `TestCase` that the ordering reads; the callbacks are of type `Body`.
pub record TestCase (Body : Type 0) : Type 0 where
  pub name : String
  pub depends_on : List String
  pub body : Body

abbrev pub str_lt : String → String → Bool
str_lt a b = elim (compare a b) [ Ordering.lt ↦ true | _ ↦ false ]

-- `std::find` and `set::count` as tests.
unfoldable pub elem : String → List String → Bool
elem x [] = false
elem x (y ∷ ys) = str_eq x y || elem x ys

-- Building a `std::set` from a range: in order, each name once.
pub insert_name : String → List String → List String
insert_name x [] = x ∷ []
insert_name x (y ∷ ys) =
    if str_eq x y then y ∷ ys else if str_lt x y then x ∷ y ∷ ys else y ∷ insert_name x ys

unfoldable pub set_of : List String → List String
unfolding insert_name
set_of [] = []
set_of (x ∷ xs) = insert_name x (set_of xs)

-- `pending`: each name with the set of its dependencies.
abbrev pub Pending : Type 0
Pending = List (String × List String)

unfoldable pub lookup : String → Pending → Option (List String)
lookup n [] = none
lookup n ((k, deps) ∷ rest) = if str_eq n k then some deps else lookup n rest

-- `pending[name] = deps`: over the old value of a key, or as a new node at its place in the order.
pub replace : String → List String → Pending → Pending
replace n deps [] = []
replace n deps ((k, old) ∷ rest) =
    if str_eq n k then (k, deps) ∷ rest else (k, old) ∷ replace n deps rest

pub emplace : String → List String → Pending → Pending
emplace n deps [] = (n, deps) ∷ []
emplace n deps ((k, old) ∷ rest) =
    if str_lt n k then (n, deps) ∷ (k, old) ∷ rest else (k, old) ∷ emplace n deps rest

pub assign : String → List String → Pending → Pending
unfolding replace emplace
assign n deps m = elim (lookup n m) [ none ↦ emplace n deps m | some _ ↦ replace n deps m ]

-- `pending.erase(name)`.
pub erase : String → Pending → Pending
erase n [] = []
erase n ((k, deps) ∷ rest) = if str_eq n k then rest else (k, deps) ∷ erase n rest

pub erase_all : List String → Pending → Pending
unfolding erase
erase_all [] m = m
erase_all (n ∷ ns) m = erase_all ns (erase n m)

module _ {Body : Type 0} where
  -- The first loop of `Levels`.
  pub pending_from : Pending → List (TestCase Body) → Pending
  unfolding assign set_of
  pending_from m [] = m
  pending_from m (t ∷ ts) = pending_from (assign t.name (set_of t.depends_on) m) ts

-- The names of a dependency list that are not keys, the first of them.
pub first_unknown : List String → Pending → Option String
first_unknown [] m = none
first_unknown (d ∷ ds) m = elim (lookup d m) [ none ↦ some d | some _ ↦ first_unknown ds m ]

-- The check for dependencies on tests that were never registered.
pub unknown_in : Pending → Pending → Option (String × String)
unfolding first_unknown
unknown_in [] m = none
unknown_in ((name, deps) ∷ rest) m = elim (first_unknown deps m) [
  | some d ↦ some (name, d)
  | none ↦ unknown_in rest m
]

-- `std::all_of` over the dependencies.
pub satisfied : List String → List String → Bool
unfolding elem
satisfied done [] = true
satisfied done (d ∷ ds) = elem d done && satisfied done ds

pub ready_in : List String → Pending → List String
unfolding satisfied
ready_in done [] = []
ready_in done ((name, deps) ∷ rest) =
    if satisfied done deps then name ∷ ready_in done rest else ready_in done rest

-- `std::sort`.
pub sort_in : String → List String → List String
sort_in x [] = x ∷ []
sort_in x (y ∷ ys) = if str_lt y x then y ∷ sort_in x ys else x ∷ y ∷ ys

unfoldable pub sort : List String → List String
unfolding sort_in
sort [] = []
sort (x ∷ xs) = sort_in x (sort xs)

join_names : String → Pending → String
join_names cycle [] = cycle
join_names cycle ((name, deps) ∷ rest) =
    join_names (str_append cycle (if str_eq cycle "" then name else str_append ", " name)) rest

unfoldable pub dependency_cycle : Pending → Exception
unfolding join_names
dependency_cycle m = invalid_argument (str_append "dependency cycle among: " (join_names "" m))

-- The `while` loop of `Levels`, with fuel; `none` means that the fuel ran out.
unfoldable pub rounds :
    ℕ → Pending → List String → List (List String) → Option (Result (List (List String)))
unfolding ready_in sort erase_all
rounds fuel [] done levels = some (ok levels)
rounds zero (p ∷ ps) done levels = none
rounds (suc fuel) (p ∷ ps) done levels = elim (sort (ready_in done (p ∷ ps))) [
  | [] ↦ some (err (dependency_cycle (p ∷ ps)))
  | r ∷ rs ↦ rounds fuel (erase_all (r ∷ rs) (p ∷ ps)) ((r ∷ rs) ++ done) (levels ++ (r ∷ rs) ∷ [])
]

abbrev pub unknown_dependency : String → String → Exception
unknown_dependency name dep = invalid_argument (
    str_append "test '"
      (str_append name (str_append "' depends on unknown test '" (str_append dep "'"))))

module _ {Body : Type 0} where
  -- `Levels`. The number of pending tests is fuel enough.
  unfoldable pub levels : List (TestCase Body) → Option (Result (List (List String)))
  unfolding pending_from unknown_in
  levels tests =
      let pending = pending_from [] tests in
      elim (unknown_in pending pending) [
        | some (name, dep) ↦ some (err (unknown_dependency name dep))
        | none ↦ rounds (length pending) pending [] []
      ]

  unfoldable pub has_name : String → List (TestCase Body) → Bool
  has_name n [] = false
  has_name n (t ∷ ts) = str_eq t.name n || has_name n ts

  -- `Add`: the tests with the new one behind them.
  unfoldable pub add : TestCase Body → List (TestCase Body) → Result (List (TestCase Body))
  unfolding has_name
  add t tests =
      if str_eq t.name ""
      then err (invalid_argument "test name must not be empty")
      else if has_name t.name tests
      then err (invalid_argument (str_append "duplicate test name: " t.name))
      else ok (tests ++ t ∷ [])

  pub size : List (TestCase Body) → ℕ
  size tests = length tests
