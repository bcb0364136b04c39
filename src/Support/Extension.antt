-- ===== src/Support/Extension.antt =====
-- The sign extension of a read of src/driver/devreg.cpp against two's complement.
use native.Mathlib.Nat.{pow-le-pow_right}
use feed_core.Prelude.{
  ℕ, zero, suc, ◌+◌, ◌*◌, ◌-◌, ◌^◌, ◌<◌, ◌≤◌, ◌≡◌, refl, ap, arith, ◌%◌, ltb, if◌then◌else◌, Bool,
  true, false, not, ◌&&◌, [], ◌∷◌, some, length, get_or, leb, Bool-cases, inl, inr, ltb→lt, lt→ltb,
  le→ltb,
}
use feed_core.Prelude.Int.{ℤ, pos, negsuc, signed32}
use feed_core.Prelude.Bits.{high_mask, mask_below, mask_at, power, land_zero_right}
use feed_core.JBlob.{signed, unsigned}
use feed_core.Device.Types.{DevReg, Device, reg_at}
use feed_core.Support.Types.{Doubles, long, Prec, Info}
use feed_core.Support.Read.{
  extended, signmask, store, read_loop, copy_in, source_of, is_allowed, is_cached, read_register_li,
}
use feed_core.Support.Copied.{read_register_common-copy_in}

-- A word of w bits as a signed number.
abbrev pub signed_of : ℕ → ℕ → ℤ
signed_of w v = if ltb v (2 ^ (w - 1)) then pos v else negsuc (2 ^ w - v - 1)

shifted : (p : ℕ) → 0 < p → p ≤ 2 ^ 32 → 0xffffffff * p % 2 ^ 32 ≡ 2 ^ 32 - p
shifted p h l = omega arith

power_le : (k n : ℕ) → k ≤ n → 2 ^ k ≤ 2 ^ n
power_le k n h = pow-le-pow_right (omega arith) h

shifted_mask : (k : ℕ) → k ≤ 31 → 0xffffffff * 2 ^ k % 2 ^ 32 ≡ high_mask 32 k
shifted_mask k h = shifted (2 ^ k) (omega (arith, power k)) (power_le k 32 (omega arith))

pub extended_none : (v : ℕ) → extended 0 v ≡ v
unfolding extended
extended_none v = rw (land_zero_right 32 v) refl

extended_below : (k v : ℕ) → k ≤ 31 → v < 2 ^ k → extended (high_mask 32 k) v ≡ v
unfolding extended
extended_below k v h l = rw (mask_below 32 k v (omega arith) l).0 refl

extended_at :
    (k v : ℕ)
    → k ≤ 31
    → 2 ^ k ≤ v
    → v < 2 ^ suc k
    → extended (high_mask 32 k) v ≡ v - 2 ^ k + high_mask 32 k
unfolding extended
extended_at k v h l u =
    let m = mask_at 32 k v (omega arith) l u in ground (arith, m.0, m.1, power k)

signed_half :
    (k v : ℕ)
    → k ≤ 31
    → v < 2 ^ suc k
    → signed32 (extended (high_mask 32 k) v)
      ≡ (if ltb v (2 ^ k) then pos v else negsuc (2 ^ suc k - v - 1))
signed_half k v h u =
    let top = power_le k 31 h in
    elim (Bool-cases (ltb v (2 ^ k))) [
      | inl e ↦
          let l = ltb→lt v (2 ^ k) e in
          rw (extended_below k v h l) (rw (lt→ltb v (2 ^ 31) (omega arith), e) refl)
      | inr e ↦
          let l : 2 ^ k ≤ v = ground arith in
          let x = v - 2 ^ k + high_mask 32 k in
          rw (extended_at k v h l u)
            (rw (le→ltb x (2 ^ 31) (omega arith), e) (ap negsuc (omega arith)))
    ]

extended-signed :
    (w v : ℕ)
    → 0 < w
    → w ≤ 32
    → v < 2 ^ w
    → signed32 (extended (0xffffffff * 2 ^ (w - 1) % 2 ^ 32) v) ≡ signed_of w v
extended-signed zero v h l u = absurd (omega arith)
extended-signed (suc k) v h l u =
    let e : suc k - 1 ≡ k = omega arith in
    rw (e, shifted_mask k (omega arith)) (signed_half k v (omega arith) u)

signmask-signed :
    (r : DevReg) (v : ℕ)
    → r.info.sign ≡ signed
    → 0 < r.info.data_width
    → r.info.data_width ≤ 32
    → v < 2 ^ r.info.data_width
    → signed32 (extended (signmask r) v) ≡ signed_of r.info.data_width v
signmask-signed r v sign low high u = rw sign (extended-signed r.info.data_width v low high u)

extended_unsigned : (r : DevReg) (v : ℕ) → r.info.sign ≡ unsigned → extended (signmask r) v ≡ v
extended_unsigned r v sign = rw sign (extended_none v)

allowed_within :
    (a b : Bool) (offset n : ℕ) → (a && b && not (leb n offset)) ≡ true → ltb offset n ≡ true
allowed_within a b offset n h = ground arith

module _ ⦃F : Doubles⦄ where
  read_here :
      (val : ℕ) (info : Info F.Double) (r : DevReg) (prec : Prec) (d : Device)
      → ltb info.options.offset (length (source_of info r)) ≡ true
      → (copy_in long false info r (val ∷ []) prec d).values
        ≡ extended (signmask r) (get_or (source_of info r) info.options.offset 0) ∷ []
  unfolding copy_in read_loop store
  read_here val info r prec d h = rw h refl

  -- A read by a longin record that is allowed and not sent to the device, of a register of 1 to 32 bits
  -- whose word is below 2 to its width, leaves one value. For a signed register this is, as an
  -- epicsInt32, the two's complement value of the word at the offset; for an unsigned one it is the word.
  pub read_register_li-value :
      (val : ℕ) (info : Info F.Double) (prec : Prec) (d : Device) (p : ℕ)
      → info.reg ≡ some p
      → is_allowed info (reg_at d p) ≡ true
      → is_cached info prec d ≡ true
      → 0 < (reg_at d p).info.data_width
      → (reg_at d p).info.data_width ≤ 32
      → let r = reg_at d p in
        let v = get_or (source_of info r) info.options.offset 0 in
        v < 2 ^ r.info.data_width
        → (x : ℕ) × ((read_register_li val (some info) prec d).values ≡ x ∷ [])
          × (r.info.sign ≡ signed → signed32 x ≡ signed_of r.info.data_width v)
          × (r.info.sign ≡ unsigned → x ≡ v)
  unfolding read_register_li
  read_register_li-value val info prec d p at allowed cached low high u =
      let r = reg_at d p in
      let v = get_or (source_of info r) info.options.offset 0 in
      (
        extended (signmask r) v,
        rw (read_register_common-copy_in long false (val ∷ []) info prec d p refl at allowed cached)
            (read_here val info r prec d (
              allowed_within (not (not info.options.rbv && not r.info.readable))
                (not (info.options.rbv && not r.info.writable)) info.options.offset
                (length (source_of info r)) allowed)),
        (λ s. signmask-signed r v s low high u),
        (λ s. extended_unsigned r v s),
      )
