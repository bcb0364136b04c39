-- ===== src/Support/Ranges.antt =====
-- The limits that an integer record takes from its register in src/driver/devreg.cpp.
use native.Mathlib.Nat.{pow-le-pow_right}
use feed_core.Prelude.{
  ℕ, ◌-◌, ◌^◌, ◌<◌, ◌≤◌, ◌≡◌, ◌⊎◌, refl, sym, ap, ◌∙◌, true, arith, Bool-cases, inl, inr, ==_iff,
}
use feed_core.Prelude.Bits.{power}
use feed_core.Prelude.Int.{ℤ, pos, negsuc}
use feed_core.JBlob.{JRegister, signed, unsigned, reg_min, reg_max}
use feed_core.JBlob.Range.{reg_min-reg_max_signed}
use feed_core.Support.Types.{Prec, Post}
use feed_core.Support.Connect.{maybe_post, post_limits, Limits, to_int32, same_ℤ}

same_ℤ-eq : (a b : ℤ) → same_ℤ a b ≡ true → a ≡ b
same_ℤ-eq (pos a) (pos b) h = ap pos ((==_iff a b).0 h)
same_ℤ-eq (negsuc a) (negsuc b) h = ap negsuc ((==_iff a b).0 h)
same_ℤ-eq (pos a) (negsuc b) h = cc
same_ℤ-eq (negsuc a) (pos b) h = cc

-- Posted or not, the field has the value.
maybe_post-value :
    (field : Post) (fld value : ℤ) (prec : Prec)
    → (maybe_post field fld value prec).0 ≡ to_int32 value
unfolding maybe_post
maybe_post-value field fld value prec = elim (Bool-cases (same_ℤ (to_int32 value) fld)) [
  | inl e ↦ rw e (sym (same_ℤ-eq (to_int32 value) fld e))
  | inr e ↦ rw e refl
]

-- An integer of 32 bits.
abbrev pub Fits32 : ℤ → Type 0
Fits32 (pos n) = n < 2 ^ 31
Fits32 (negsuc n) = n < 2 ^ 31

to_int32-Fits32 : (z : ℤ) → Fits32 z → to_int32 z ≡ z
to_int32-Fits32 (pos n) h = ground arith
to_int32-Fits32 (negsuc n) h = ground arith

power_bound : (k : ℕ) → k ≤ 31 → (2 ^ k ≤ 2 ^ 31) × (1 ≤ 2 ^ k)
power_bound k h = (pow-le-pow_right (omega arith) h, power k)

unsigned_range :
    (r : JRegister)
    → r.sign ≡ unsigned
    → (reg_min r ≡ pos 0) × (reg_max r ≡ pos (2 ^ r.data_width - 1))
unfolding reg_min reg_max
unsigned_range r s = (rw s refl, rw s refl)

range-Fits32 :
    (r : JRegister)
    → 1 ≤ r.data_width
    → r.data_width ≤ 32
    → (r.sign ≡ signed) ⊎ ((r.sign ≡ unsigned) × (r.data_width ≤ 31))
    → Fits32 (reg_min r) × Fits32 (reg_max r)
range-Fits32 r low high (inl s) =
    let m = reg_min-reg_max_signed r s low high in
    let p = power_bound (r.data_width - 1) (omega arith) in
    (rw m.0 (omega (arith, p)), rw m.1 (omega (arith, p)))
range-Fits32 r low high (inr u) =
    let m = unsigned_range r u.0 in
    let p = power_bound r.data_width u.1 in (rw m.0 (omega arith), rw m.1 (omega (arith, p)))

same_limits :
    {a b c e a' b' c' e' : ℤ}
    → a ≡ a'
    → b ≡ b'
    → c ≡ c'
    → e ≡ e'
    → Path Limits
        (record { drvl = a; lopr = b; drvh = c; hopr = e })
        (record { drvl = a'; lopr = b'; drvh = c'; hopr = e' })
same_limits p q r s = rw (p, q, r, s) refl

-- With meta, a longout record whose register is signed of 1 to 32 bits, or unsigned of 1 to 31 bits, has
-- the range of the register as its drive limits and as its display limits, whatever they were.
pub post_limits-range :
    (r : JRegister) (l : Limits) (prec : Prec)
    → 1 ≤ r.data_width
    → r.data_width ≤ 32
    → (r.sign ≡ signed) ⊎ ((r.sign ≡ unsigned) × (r.data_width ≤ 31))
    → (post_limits r l prec).0
      ≡ record { drvl = reg_min r; lopr = reg_min r; drvh = reg_max r; hopr = reg_max r }
unfolding post_limits
post_limits-range r l prec low high s =
    let f = range-Fits32 r low high s in
    let a = to_int32-Fits32 (reg_min r) f.0 in
    let b = to_int32-Fits32 (reg_max r) f.1 in
    same_limits (maybe_post-value _ _ _ _ ∙ a) (maybe_post-value _ _ _ _ ∙ a)
      (maybe_post-value _ _ _ _ ∙ b) (maybe_post-value _ _ _ _ ∙ b)
