-- ===== src/Prelude/Exn.antt =====
-- C++ exceptions as values, for code without state and for code that keeps its state on a throw.
use Prim.Native.Nat.{ℕ}
use Prim.Native.String.{String}
use mathlib.Core.Path.{◌≡◌, refl}
use mathlib.Core.List.{List}

-- The texts are the literals of the throw, the numbers what is streamed into them.
pub data Exn : Type 0 where
  runtime_error : String → List ℕ → Exn
  logic_error : String → List ℕ → Exn
  out_of_range : Exn
  socket_error : ℕ → Exn
  -- a failed `assert`, which ends the program and no handler catches
  assertion : String → Exn
  -- no exception: the model's fuel ran out
  fuel_out : Exn

pub data Result {ℓ} (A : Type ℓ) : Type ℓ where
  ok : A → Result A
  err : Exn → Result A

infixl 5 ◌>>=◌
abbrev pub ◌>>=◌ {ℓ κ} : {A : Type ℓ} {B : Type κ} → Result A → (A → Result B) → Result B
ok a >>= f = f a
err e >>= f = err e

module _ {ℓ κ} {A : Type ℓ} {B : Type κ} (next : A → Result B) where
  -- What a chain of two calls that returns has returned on the way.
  pub >>=-returns :
      (first : Result A) (last : B)
      → (first >>= next) ≡ ok last
      → (mid : A) × (first ≡ ok mid) × (next mid ≡ ok last)
  >>=-returns (err e) last h = cc
  >>=-returns (ok mid) last h = (mid, refl, h)
