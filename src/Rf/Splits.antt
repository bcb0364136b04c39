-- ===== src/Rf/Splits.antt =====
-- src/rf/asub.c: what asub_split_bits and sub_feed_nset_bits count.
use feed_core.Prelude.{
  ℕ, zero, suc, ◌+◌, ◌-◌, ◌*◌, ◌%◌, ◌^◌, ◌≡◌, ◌<◌, ◌≤◌, refl, sym, ap, ◌∙◌, arith, Bool, true, List,
  [], ◌∷◌, ◌==◌, if◌then◌else◌, length, All, take-append, drop-append, ◌++◌,
}
use feed_core.Prelude.Int.{pos, negsuc}
use feed_core.Prelude.Bits.{bit, bit-below, bit-shift}
use feed_core.Rf.{Output, split_loop, asub_split_bits, output_count}

-- The number of set bits among the i highest of the low n bits.
unfoldable pub set_above : ℕ → ℕ → ℕ → ℕ
set_above n mask zero = 0
set_above n mask (suc i) = set_above n mask i + bit mask (n - 1 - i)

-- The outputs from the i-th on: each stands for a bit, the highest first, and has the number of set
-- bits above it, or -1 where the bit is not set.
abbrev pub IsSplit : ℕ → ℕ → ℕ → List Output → Type 0
IsSplit n mask i [] = Unit
IsSplit n mask i (o ∷ os) =
    ((o.value ≡ (if bit mask (n - 1 - i) == 1 then pos (set_above n mask i) else negsuc 0))
      × (o.count ≡ 1))
    × IsSplit n mask (suc i) os

abbrev pub IsLong : Output → Type 0
IsLong o = o.is_long ≡ true

counted : (b s : ℕ) → b < 2 → (if b == 1 then s + 1 else s) ≡ s + b
counted b s h = ground arith

-- `shifted` is the mask after i rounds: its bit at n - 1 - j is the mask's at n - 1 - i - j.
split_loop-IsSplit :
    (n mask shifted i : ℕ) (os : List Output)
    → n ≤ 32
    → i + length os ≤ n
    → ((k : ℕ) → k + i < n → bit shifted (k + i) ≡ bit mask k)
    → All IsLong os
    → ((split_loop n shifted (set_above n mask i) os).0 ≡ set_above n mask (i + length os))
      × IsSplit n mask i (split_loop n shifted (set_above n mask i) os).1
unfolding split_loop set_above
split_loop-IsSplit n mask shifted i [] l h same long = (ap (set_above n mask) (omega arith), tt)
split_loop-IsSplit n mask shifted i (o ∷ os) l h same long =
    let here : bit shifted (n - 1) ≡ bit mask (n - 1 - i) =
      ap (bit shifted) (omega arith) ∙ same (n - 1 - i) (omega arith) in
    let moved : (k : ℕ) → k + suc i < n → bit ((shifted * 2) % 2 ^ 32) (k + suc i) ≡ bit mask k =
      λ k u.
        ap (bit ((shifted * 2) % 2 ^ 32)) (omega arith)
        ∙ (bit-shift shifted (k + i) (omega arith) ∙ same k (omega arith)) in
    let rest =
      split_loop-IsSplit n mask ((shifted * 2) % 2 ^ 32) (suc i) os l (omega arith) moved long.1 in
    let last : set_above n mask (suc i + length os) ≡ set_above n mask (i + suc (length os)) =
      ap (set_above n mask) (omega arith) in
    rw
      (
        long.0,
        here,
        counted (bit mask (n - 1 - i)) (set_above n mask i) (bit-below mask (n - 1 - i)),
      )
      (rest.0 ∙ last, ((refl, refl), rest.1))

length-split_loop :
    (n mask bitcnt : ℕ) (os : List Output) → length (split_loop n mask bitcnt os).1 ≡ length os
unfolding split_loop
length-split_loop n mask bitcnt [] = refl
length-split_loop n mask bitcnt (o ∷ os) = ap suc (length-split_loop n ((mask * 2) % 2 ^ 32) _ os)

output_count-bound : (is_ulong : Bool) (noutput : ℕ) → output_count is_ulong noutput ≤ 12
unfolding output_count
output_count-bound is_ulong noutput = ground arith

-- With outputs that are all of type LONG, and as many as there are bits, asub_split_bits gives output i
-- the bit that is i-th from the top of those bits: its value is the number of set bits above this one,
-- or -1 where it is not set, its count is 1, and the sum is the number of all set bits. The outputs
-- behind stay as they are.
pub asub_split_bits-IsSplit :
    (is_ulong : Bool) (noutput mask : ℕ) (outputs others : List Output)
    → length outputs ≡ output_count is_ulong noutput
    → All IsLong outputs
    → (os : List Output) × (asub_split_bits is_ulong noutput mask (outputs ++ others)
        ≡ (set_above (length outputs) mask (length outputs), os ++ others))
      × (length os ≡ length outputs)
      × IsSplit (length outputs) mask 0 os
unfolding asub_split_bits set_above
asub_split_bits-IsSplit is_ulong noutput mask outputs others e long =
    let n = length outputs in
    let low : n ≤ 32 = omega (arith, output_count-bound is_ulong noutput, e) in
    let r =
      split_loop-IsSplit n mask mask 0 outputs low (omega arith)
        (λ k u. ap (bit mask) (omega arith)) long in
    let r0 : (split_loop n mask 0 outputs).0 ≡ set_above n mask n =
      r.0 ∙ ap (set_above n mask) (omega arith) in
    (
      (split_loop n mask 0 outputs).1,
      rw (sym e, take-append outputs others, drop-append outputs others, r0) refl,
      length-split_loop n mask 0 outputs,
      r.1,
    )
