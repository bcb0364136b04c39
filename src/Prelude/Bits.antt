-- ===== src/Prelude/Bits.antt =====
-- The bitwise operators on the low n bits, and what they do with a mask of high bits.
use Prim.Native.Nat.{ℕ, zero, suc, ◌+◌, ◌-◌, ◌*◌, ◌/◌, ◌%◌, ◌^◌, ◌<◌, ◌≤◌}
use mathlib.Core.Path.{◌≡◌, refl, ap, ◌∙◌, sym}
use mathlib.Core.Logic.{◌⊎◌, inl, inr}
use native.Mathlib.Omega.{arith}
use native.Mathlib.Nat.{one-le-pow}
use feed_core.Prelude.Tests.{Bool-cases, ◌==◌}

-- The operator & on numbers of n bits, lowest bit first.
unfoldable pub land : ℕ → ℕ → ℕ → ℕ
land zero a b = 0
land (suc n) a b = a % 2 * (b % 2) + 2 * land n (a / 2) (b / 2)

-- The operator |.
unfoldable pub lor : ℕ → ℕ → ℕ → ℕ
lor zero a b = 0
lor (suc n) a b = a % 2 + b % 2 - a % 2 * (b % 2) + 2 * lor n (a / 2) (b / 2)

bit-cases : (a : ℕ) → (a % 2 ≡ 0) ⊎ (a % 2 ≡ 1)
bit-cases a = elim (Bool-cases (a % 2 == 0)) [
  | inl e ↦ inl (ground arith)
  | inr e ↦ inr (ground arith)
]

-- The low bit and the rest of a number whose low bit is p.
low_bit : (p x : ℕ) → p < 2 → ((p + 2 * x) % 2 ≡ p) × ((p + 2 * x) / 2 ≡ x)
low_bit p x h = (omega arith, omega arith)

product_bit : (a b : ℕ) → (a % 2 * (b % 2) < 2) × (a % 2 * (b % 2) * (b % 2) ≡ a % 2 * (b % 2))
product_bit a b = elim (bit-cases b) [
  | inl e ↦ rw e (omega arith, omega arith)
  | inr e ↦ rw e (omega arith, omega arith)
]

pub land_idem : (n a m : ℕ) → land n (land n a m) m ≡ land n a m
unfolding land
land_idem zero a m = refl
land_idem (suc n) a m =
    let p = product_bit a m in
    let l = low_bit (a % 2 * (m % 2)) (land n (a / 2) (m / 2)) p.0 in
    rw (l.0, l.1, p.1, land_idem n (a / 2) (m / 2)) refl

-- A mask of the bits from k on, of n bits.
abbrev pub high_mask : ℕ → ℕ → ℕ
high_mask n k = 2 ^ n - 2 ^ k

land_zero : (n b : ℕ) → land n 0 b ≡ 0
unfolding land
land_zero zero b = refl
land_zero (suc n) b = omega (arith, land_zero n (b / 2))

pub land_zero_right : (n a : ℕ) → land n a 0 ≡ 0
unfolding land
land_zero_right zero a = refl
land_zero_right (suc n) a = omega (arith, land_zero_right n (a / 2))

lor_zero : (n b : ℕ) → b < 2 ^ n → lor n 0 b ≡ b
unfolding lor
lor_zero zero b h = omega arith
lor_zero (suc n) b h = omega (arith, lor_zero n (b / 2) (omega arith))

pub power : (n : ℕ) → 1 ≤ 2 ^ n
power n = one-le-pow n 2 (omega arith)

-- The low bit of a mask, and the rest of it.
mask-suc :
    (n k : ℕ)
    → k ≤ n
    → (high_mask (suc n) (suc k) % 2 ≡ 0) × (high_mask (suc n) (suc k) / 2 ≡ high_mask n k)
mask-suc n k h = (omega arith, omega arith)

-- A number below the mask has no bit in common with it.
pub mask_below :
    (n k a : ℕ)
    → k ≤ n
    → a < 2 ^ k
    → (land n a (high_mask n k) ≡ 0) × (lor n a (high_mask n k) ≡ a + high_mask n k)
unfolding land lor
mask_below n zero zero k h =
    (land_zero n _, omega (arith, lor_zero n (high_mask n 0) (omega (arith, power n)), power n))
mask_below n zero (suc a) k h = absurd (omega arith)
mask_below zero (suc j) a k h = absurd (omega arith)
mask_below (suc n) (suc j) a k h =
    let m = mask-suc n j (omega arith) in
    let rest = mask_below n j (a / 2) (omega arith) (omega arith) in
    rw (m.0, m.1, rest.0, rest.1) (omega arith, omega arith)

-- A number whose highest bit is the lowest of the mask.
pub mask_at :
    (n k a : ℕ)
    → k < n
    → 2 ^ k ≤ a
    → a < 2 ^ suc k
    → (land n a (high_mask n k) ≡ 2 ^ k) × (lor n a (high_mask n k) ≡ a - 2 ^ k + high_mask n k)
unfolding land lor
mask_at zero k a h l u = absurd (omega arith)
mask_at (suc n) zero zero h l u = absurd (omega arith)
mask_at (suc n) zero (suc zero) h l u =
    let m : (high_mask (suc n) 0 % 2 ≡ 1) × (high_mask (suc n) 0 / 2 ≡ high_mask n 0) =
      (omega (arith, power n), omega (arith, power n)) in
    rw (m.0, m.1, land_zero n, lor_zero n (high_mask n 0) (omega (arith, power n)))
      (omega arith, omega arith)
mask_at (suc n) zero (suc (suc a)) h l u = absurd (omega arith)
mask_at (suc n) (suc j) a h l u =
    let m = mask-suc n j (omega arith) in
    let rest = mask_at n j (a / 2) (omega arith) (omega arith) (omega arith) in
    rw (m.0, m.1, rest.0, rest.1) (omega arith, omega arith)

-- The bit of weight 2 ^ i, as a number.
unfoldable pub bit : ℕ → ℕ → ℕ
bit x zero = x % 2
bit x (suc i) = bit (x / 2) i

-- All n bits but the one of weight 2 ^ i.
abbrev pub all_but : ℕ → ℕ → ℕ
all_but n i = 2 ^ n - 1 - 2 ^ i

pub bit-below : (x i : ℕ) → bit x i < 2
unfolding bit
bit-below x zero = omega arith
bit-below x (suc i) = bit-below (x / 2) i

pub bit-land : (n a b i : ℕ) → i < n → bit (land n a b) i ≡ bit a i * bit b i
unfolding land bit
bit-land zero a b i h = absurd (omega arith)
bit-land (suc n) a b zero h =
    (low_bit (a % 2 * (b % 2)) (land n (a / 2) (b / 2)) (product_bit a b).0).0
bit-land (suc n) a b (suc i) h =
    ap (λ t. bit t i) (low_bit (a % 2 * (b % 2)) (land n (a / 2) (b / 2)) (product_bit a b).0).1
    ∙ bit-land n (a / 2) (b / 2) i (omega arith)

either_bit : (a b : ℕ) → a % 2 + b % 2 - a % 2 * (b % 2) < 2
either_bit a b = elim (bit-cases b) [ inl e ↦ rw e (omega arith) | inr e ↦ rw e (omega arith) ]

pub bit-lor : (n a b i : ℕ) → i < n → bit (lor n a b) i ≡ bit a i + bit b i - bit a i * bit b i
unfolding lor bit
bit-lor zero a b i h = absurd (omega arith)
bit-lor (suc n) a b zero h =
    (low_bit (a % 2 + b % 2 - a % 2 * (b % 2)) (lor n (a / 2) (b / 2)) (either_bit a b)).0
bit-lor (suc n) a b (suc i) h =
    ap (λ t. bit t i)
      (low_bit (a % 2 + b % 2 - a % 2 * (b % 2)) (lor n (a / 2) (b / 2)) (either_bit a b)).1
    ∙ bit-lor n (a / 2) (b / 2) i (omega arith)

pub bit-power : (i : ℕ) → bit (2 ^ i) i ≡ 1
unfolding bit
bit-power zero = refl
bit-power (suc i) =
    let half : 2 ^ suc i / 2 ≡ 2 ^ i = omega arith in ap (λ t. bit t i) half ∙ bit-power i

power_le : (n i : ℕ) → i ≤ n → 2 ^ i ≤ 2 ^ n
power_le n zero h = power n
power_le zero (suc i) h = absurd (omega arith)
power_le (suc n) (suc i) h = omega (arith, power_le n i (omega arith))

pub bit-all_but : (n i : ℕ) → i < n → bit (all_but n i) i ≡ 0
unfolding bit
bit-all_but zero i h = absurd (omega arith)
bit-all_but (suc n) zero h = omega (arith, power n)
bit-all_but (suc n) (suc i) h =
    let half : all_but (suc n) (suc i) / 2 ≡ all_but n i =
      omega (arith, power_le n (suc i) (omega arith), power i) in
    ap (λ t. bit t i) half ∙ bit-all_but n i (omega arith)

-- A number of n bits that is not zero has one of them set.
pub some_bit : (n x : ℕ) → x < 2 ^ n → 0 < x → (i : ℕ) × (i < n) × (bit x i ≡ 1)
unfolding bit
some_bit zero x h p = absurd (omega arith)
some_bit (suc n) x h p = elim (bit-cases x) [
  | inl e ↦
      let rest = some_bit n (x / 2) (omega arith) (omega arith) in
      (suc rest.0, omega (arith, rest.1), rest.2)
  | inr e ↦ (zero, omega arith, e)
]

power_mul : (n q : ℕ) → 2 ^ suc n * q ≡ 2 * (2 ^ n * q)
power_mul n q = grind arith

-- The low n bits do not see what is added above them.
bit-high : (n q r k : ℕ) → k < n → bit (2 ^ n * q + r) k ≡ bit r k
unfolding bit
bit-high zero q r k h = absurd (omega arith)
bit-high (suc n) q r zero h = omega (arith, power_mul n q)
bit-high (suc n) q r (suc k) h =
    let half : (2 ^ suc n * q + r) / 2 ≡ 2 ^ n * q + r / 2 = omega (arith, power_mul n q) in
    ap (λ t. bit t k) half ∙ bit-high n q (r / 2) k (omega arith)

-- A 32-bit word that is shifted left by one.
pub bit-shift : (x k : ℕ) → suc k < 32 → bit ((x * 2) % 2 ^ 32) (suc k) ≡ bit x k
unfolding bit
bit-shift x k h =
    let half : (x * 2) % 2 ^ 32 / 2 ≡ x % 2 ^ 31 = omega arith in
    let e : 2 ^ 31 * (x / 2 ^ 31) + x % 2 ^ 31 ≡ x = omega arith in
    ap (λ t. bit t k) half
    ∙ (sym (bit-high 31 (x / 2 ^ 31) (x % 2 ^ 31) k (omega arith)) ∙ ap (λ t. bit t k) e)
