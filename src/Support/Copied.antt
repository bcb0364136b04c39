-- ===== src/Support/Copied.antt =====
-- The elements that a read of src/driver/devreg.cpp puts in the buffer.
use native.Mathlib.Nat.{suc-mul}
use feed_core.Prelude.{
  ℕ, zero, suc, ◌+◌, ◌*◌, ◌<◌, ◌≤◌, ◌≡◌, ◌↔◌, refl, ap, ◌∙◌, subst, Bool, true, false, List, [],
  ◌∷◌, some, arith, length, get_or, get_elem?, if◌then◌else◌, ltb, Bool-cases, inl, inr, ltb→lt,
  le→ltb,
}
use feed_core.Prelude.Maps.{some_injective}
use feed_core.Device.Types.{Device, reg_at}
use feed_core.Support.Types.{Doubles, Ftype, is_supported, Elem, Prec, Info}
use feed_core.Support.Read.{
  extended, store, read_loop, read_count, read_size, signmask, source_of, is_allowed, is_cached,
  stamped, copy_in, read_attached, read_register_common,
}

next_index : (step i k : ℕ) → i + suc k * step ≡ i + step + k * step
next_index step i k = omega (arith, suc-mul k step)

first_index : (step i : ℕ) → i + 0 * step ≡ i
first_index step i = omega arith

-- One word more, in front.
counted :
    (step size i n c : ℕ)
    → ((k : ℕ) → (k < c) ↔ ((k < n) × (i + step + k * step < size)))
    → ltb i size ≡ true
    → (k : ℕ) → (k < suc c) ↔ ((k < suc n) × (i + k * step < size))
counted step size i n c rest e zero =
    (λ h. (omega arith, rw (first_index step i) (ltb→lt i size e)), λ h. omega arith)
counted step size i n c rest e (suc k) = (
  λ h. let r = (rest k).0 (omega arith) in (omega (arith, r.0), rw (next_index step i k) r.1),
  λ h.
      let low = (rest k).1 (omega (arith, h.0), subst (λ m. m < size) (next_index step i k) h.1) in
      omega (arith, low),
)

-- The count of a copy: the elements whose word is in the register.
pub read_count_iff :
    (step size i n k : ℕ) → (k < read_count step size i n) ↔ ((k < n) × (i + k * step < size))
unfolding read_count
read_count_iff step size i zero k = (λ h. absurd (omega arith), λ h. absurd (omega (arith, h.0)))
read_count_iff step size i (suc n) k = elim (Bool-cases (ltb i size)) [
  | inl e ↦ rw e (counted step size i n _ (read_count_iff step size (i + step) n) e k)
  | inr e ↦ rw e (λ h. absurd (omega arith), λ h. absurd (ground (arith, h.1)))
]

module _ ⦃F : Doubles⦄ (t : Ftype) (mask : ℕ) (scale : F.Double) (step size : ℕ)
    (mem : List ℕ) where
  abbrev pub element : ℕ → Elem F.Double t → Elem F.Double t
  element i x = if ltb i size then store t mask scale (extended mask (get_or mem i 0)) x else x

  pub read_loop-element :
      (i : ℕ) (xs : List (Elem F.Double t)) (k : ℕ) (x : Elem F.Double t)
      → get_elem? xs k ≡ some x
      → get_elem? (read_loop t mask scale step size mem i xs) k ≡ some (element (i + k * step) x)
  unfolding read_loop
  read_loop-element i [] k x h = cc
  read_loop-element i (y ∷ ys) zero x h = elim (Bool-cases (ltb i size)) [
    | inl e ↦ rw (first_index step i, e) (ap some (ap (store t mask scale _) (some_injective h)))
    | inr e ↦ rw (first_index step i, e) h
  ]
  read_loop-element i (y ∷ ys) (suc k) x h = elim (Bool-cases (ltb i size)) [
    | inl e ↦ rw (e, next_index step i k) (read_loop-element (i + step) ys k x h)
    | inr e ↦ rw (e, le→ltb (i + suc k * step) size (ground arith)) h
  ]

read_size_le : {D : Type 0} (array : Bool) (info : Info D) (n : ℕ) → read_size array info n ≤ n
read_size_le array info n = ground arith

module _ ⦃F : Doubles⦄ (t : Ftype) (array : Bool) (xs : List (Elem F.Double t))
    (info : Info F.Double) (prec : Prec) (d : Device) (p : ℕ) (supported : is_supported t ≡ true)
    (at : info.reg ≡ some p) (allowed : is_allowed info (reg_at d p) ≡ true)
    (cached : is_cached info prec d ≡ true) where
  pub read_register_common-copy_in :
      read_register_common t array xs (some info) prec d
      ≡ copy_in t array info (reg_at d p) xs prec d
  unfolding read_register_common read_attached
  read_register_common-copy_in = rw supported (
      ap (read_attached t array info xs prec d) at
      ∙ (unfold read_attached in rw (allowed, cached) refl))

  -- A read that is allowed and not sent to the device, of a supported type: the element k of the buffer
  -- becomes the conversion of the word at offset + k * step, where that is within what the read takes of
  -- the register, and stays otherwise; the count is the number of elements of the first kind; what is
  -- taken of the register is within its memory; the device stays, and the record is not active.
  pub read_register_common-element :
      (k : ℕ) (x : Elem F.Double t)
      → get_elem? xs k ≡ some x
      → let r = reg_at d p in
        let o = info.options in
        let mem = source_of info r in
        let size = read_size array info (length mem) in
        let c = read_register_common t array xs (some info) prec d in
        (get_elem? c.values k
          ≡ some (element t (signmask r) o.scale o.step size mem (o.offset + k * o.step) x))
        × ((k < c.count) ↔ ((k < length xs) × (o.offset + k * o.step < size)))
        × (size ≤ length mem)
        × (c.call.device ≡ d)
        × (c.call.prec.pact ≡ false)
  unfolding copy_in stamped
  read_register_common-element k x there =
      let r = reg_at d p in
      let o = info.options in
      let mem = source_of info r in
      let size = read_size array info (length mem) in
      rw read_register_common-copy_in (
        read_loop-element t (signmask r) o.scale o.step size mem o.offset xs k x there,
        read_count_iff o.step size o.offset (length xs) k,
        read_size_le array info (length mem),
        refl,
        refl,
      )
