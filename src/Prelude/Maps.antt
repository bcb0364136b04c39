-- ===== src/Prelude/Maps.antt =====
-- std::map as an association list in key order: a write replaces the entry, or inserts it before the
-- first greater key.
use Prim.Native.Nat.{ℕ}
use mathlib.Core.Path.{◌≡◌, refl, subst}
use mathlib.Core.Logic.{inl, inr}
use mathlib.Core.Bool.{Bool, true, false}
use mathlib.Core.List.{List, [], ◌∷◌}
use mathlib.Core.Option.{Option, none, some}
use native.Mathlib.Omega.{arith}
use feed_core.Prelude.Tests.{
  ltb, ◌==◌, ◌===◌, ==_refl, ==_iff, ===-refl, ===-eq, if◌then◌else◌, Bytes, Bool-cases,
}

pub some_injective {ℓ} : {A : Type ℓ} {a b : A} → some a ≡ some b → a ≡ b
some_injective e = cc

-- A key type: equality, and the order that std::less gives.
pub record Key {ℓ} (K : Type ℓ) : Type ℓ where
  pub same : K → K → Bool
  pub less : K → K → Bool
  pub same-refl : (k : K) → same k k ≡ true
  pub same-eq : (j k : K) → same j k ≡ true → j ≡ k

-- std::less on strings: lexicographic on unsigned bytes.
unfoldable pub bytes_lt : Bytes → Bytes → Bool
bytes_lt xs [] = false
bytes_lt [] (y ∷ ys) = true
bytes_lt (x ∷ xs) (y ∷ ys) = if x == y then bytes_lt xs ys else ltb x y

pub ==-eq : (j k : ℕ) → (j == k) ≡ true → j ≡ k
==-eq j k h = (==_iff j k).0 h

instance abbrev pub bytes_key : Key Bytes
bytes_key = record { same = ◌===◌; less = bytes_lt; same-refl = ===-refl; same-eq = ===-eq }

instance abbrev pub nat_key : Key ℕ
nat_key = record { same = ◌==◌; less = ltb; same-refl = ==_refl; same-eq = ==-eq }

module _ {ℓ κ} {K : Type ℓ} ⦃key : Key K⦄ {V : Type κ} where
  unfoldable pub lookup : K → List (K × V) → Option V
  lookup k [] = none
  lookup k ((j, v) ∷ m) = if key.same j k then some v else lookup k m

  unfoldable pub insert : K → V → List (K × V) → List (K × V)
  insert k v [] = (k, v) ∷ []
  insert k v ((j, w) ∷ m) =
      if key.same j k
      then (k, v) ∷ m
      else if key.less k j
      then (k, v) ∷ (j, w) ∷ m
      else (j, w) ∷ insert k v m

  pub lookup-insert :
      (k j : K) (v : V) (m : List (K × V))
      → lookup j (insert k v m) ≡ (if key.same k j then some v else lookup j m)
  unfolding lookup insert
  lookup-insert k j v [] = refl
  lookup-insert k j v ((i, w) ∷ m) = ground (
    arith,
    lookup-insert k j v m,
    key.same-eq i k,
    key.same-eq i j,
    key.same-eq k j,
    key.same-refl k,
    key.same-refl i,
  )

  pub lookup-insert_self : (k : K) (v : V) (m : List (K × V)) → lookup k (insert k v m) ≡ some v
  lookup-insert_self k v m = rw (lookup-insert k k v m, key.same-refl k)

  -- A property of every value survives a write of a value that has it.
  abbrev pub AllValues {μ} : (K → V → Type μ) → List (K × V) → Type μ
  AllValues P [] = Unit {μ}
  AllValues P ((k, v) ∷ m) = P k v × AllValues P m

  pub insert-AllValues {μ} :
      (P : K → V → Type μ) (k : K) (v : V) (m : List (K × V))
      → P k v
      → AllValues P m
      → AllValues P (insert k v m)
  unfolding insert
  insert-AllValues P k v [] p h = (p, tt)
  insert-AllValues P k v ((j, w) ∷ m) p h = ground (arith, insert-AllValues P k v m p h.1)

  pub AllValues-map {μ ν} :
      (P : K → V → Type μ) (Q : K → V → Type ν) (m : List (K × V))
      → ((k : K) (v : V) → P k v → Q k v)
      → AllValues P m
      → AllValues Q m
  AllValues-map P Q [] f h = tt
  AllValues-map P Q ((k, v) ∷ m) f h = (f k v h.0, AllValues-map P Q m f h.1)

  pub lookup-AllValues {μ} :
      (P : K → V → Type μ) (m : List (K × V)) (k : K) (v : V)
      → AllValues P m
      → lookup k m ≡ some v
      → P k v
  unfolding lookup
  lookup-AllValues P [] k v h e = cc
  lookup-AllValues P ((j, w) ∷ m) k v h e = elim (Bool-cases (key.same j k)) [
    | inl s ↦
        let found : some w ≡ some v = rw s at e in
        subst (P k) (some_injective found) (subst (λ t. P t w) (key.same-eq j k s) h.0)
    | inr s ↦ let rest : lookup k m ≡ some v = rw s at e in lookup-AllValues P m k v h.1 rest
  ]
