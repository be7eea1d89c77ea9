-- ===== src/Bus.antt =====
-- include/soc/transport.hpp: `TransportError` and the `ITransport` interface. A method of a class
-- is a function from the object's state to its result and the new state, also where it throws:
-- what it did before the exception stays done.
pub mod Program
use Prim.Native.String.{String}
use soc_validation_framework.Prelude.{ℕ, Option, List}

-- `transport_error` is `TransportError`; the others are the standard exceptions that the code
-- throws. `undefined_access` is no exception of the program: it marks an access outside an array,
-- which C++ leaves undefined.
pub data Exception : Type 0 where
  transport_error : (what : String) (address : ℕ) → Exception
  invalid_argument out_of_range runtime_error : (what : String) → Exception
  undefined_access : Exception

pub data Result {ℓ} (A : Type ℓ) : Type ℓ where
  ok : A → Result A
  err : Exception → Result A

abbrev pub M : Type 0 → Type 0 → Type 0
M S A = S → Result A × S

module _ {S A B : Type 0} where
  infixl 5 ◌>>=◌ ◌>>◌
  abbrev pub ◌>>=◌ : M S A → (A → M S B) → M S B
  ◌>>=◌ m f s = let (r, s') = m s in elim r [ err e ↦ (err e, s') | ok a ↦ f a s' ]

  abbrev pub ◌>>◌ : M S A → M S B → M S B
  ◌>>◌ m n = m >>= λ _. n

abbrev pub pure : {S A : Type 0} → A → M S A
pure a s = (ok a, s)

-- A `uint32_t*`: null, or the words of the caller's array from the pointer on.
abbrev pub Buffer : Type 0
Buffer = Option (List ℕ)

-- `ITransport` over the state `S` of the object behind it. `read_block` hands the caller's array
-- back, with the words that were stored before a throw.
pub record Transport (S : Type 0) : Type 0 where
  pub read32 : ℕ → M S ℕ
  pub write32 : ℕ → ℕ → M S (Unit {0})
  pub read_block : ℕ → Buffer → ℕ → S → Result (Unit {0}) × Buffer × S
  pub write_block : ℕ → Buffer → ℕ → M S (Unit {0})
  pub name : S → String
