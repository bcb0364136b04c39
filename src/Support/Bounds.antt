-- ===== src/Support/Bounds.antt =====
-- The words that a write of src/driver/devreg.cpp changes.
use native.Mathlib.Nat.{suc-mul}
use feed_core.Prelude.{
  ℕ, suc, ◌+◌, ◌*◌, ◌<◌, ◌≡◌, ◌≢◌, refl, sym, ap, ◌∙◌, subst, Bool, true, false, not, List, [], ◌∷◌,
  some, arith, length, length-set, get_or, set, get_or-set_ne, if◌then◌else◌,
}
use feed_core.Device.Types.{write_alarm, Device, reg_at, Outcome, done, throws, device_of}
use feed_core.Device.Register.{queue}
use feed_core.Device.Store.{reg_at-set_reg_self, reg_at-set_reg_ne, length-set_reg}
use feed_core.Support.Types.{
  Doubles, Ftype, is_supported, Elem, Prec, Info, Call, caught, refused, waiter,
}
use feed_core.Support.Write.{
  load, write_loop, copy_out, committed, is_writable, start_write, write_attached,
  write_register_common,
}
use feed_core.Support.Frame.{Framed, queue-Framed}

-- The word j is none of the n words from i on in steps.
abbrev pub IsSpared : ℕ → ℕ → ℕ → ℕ → Type 0
IsSpared step i n j = (k : ℕ) → k < n → j ≢ i + k * step

-- The register p keeps all but the addressed words of its send memory, and the other registers all.
pub record Confined (p step i n : ℕ) (d d' : Device) : Type 0 where
  pub same_info : (reg_at d' p).info ≡ (reg_at d p).info
  pub same_rx : (reg_at d' p).mem_rx ≡ (reg_at d p).mem_rx
  pub same_length : length (reg_at d' p).mem_tx ≡ length (reg_at d p).mem_tx
  pub spared :
      (j : ℕ)
      → IsSpared step i n j
      → get_or (reg_at d' p).mem_tx j 0 ≡ get_or (reg_at d p).mem_tx j 0
  pub others : (q : ℕ) → p ≢ q → reg_at d' q ≡ reg_at d q

Confined-refl : (p step i n : ℕ) (d : Device) → Confined p step i n d d
Confined-refl p step i n d = record {
  same_info = refl;
  same_rx = refl;
  same_length = refl;
  spared = λ j h. refl;
  others = λ q h. refl;
}

-- A frame behind a confined write.
Confined-Framed :
    (p step i n : ℕ) (d d1 d2 : Device)
    → Confined p step i n d d1
    → Framed p d1 d2
    → Confined p step i n d d2
Confined-Framed p step i n d d1 d2 c f = record {
  same_info = f.same_info ∙ c.same_info;
  same_rx = f.same_rx ∙ c.same_rx;
  same_length = ap length f.same_tx ∙ c.same_length;
  spared = λ j h. ap (λ m. get_or m j 0) f.same_tx ∙ c.spared j h;
  others = λ q h. f.others q h ∙ c.others q h;
}

IsSpared-rest :
    (step i n j : ℕ) → IsSpared step i (suc n) j → (i ≢ j) × IsSpared step (i + step) n j
IsSpared-rest step i n j h = (
  λ e. h 0 (omega arith) (omega arith),
  λ k l e. h (suc k) (omega arith) (omega (arith, e, suc-mul k step)),
)

module _ ⦃F : Doubles⦄ (t : Ftype) (scale : F.Double) (step size : ℕ) where
  pub length-write_loop :
      (i : ℕ) (xs : List (Elem F.Double t)) (mem : List ℕ)
      → length (write_loop t scale step size i xs mem) ≡ length mem
  unfolding write_loop
  length-write_loop i [] mem = refl
  length-write_loop i (x ∷ xs) mem = ground (
    arith,
    length-write_loop (i + step) xs (set mem i (load t scale x)),
    length-set mem i (load t scale x),
  )

  pub write_loop-IsSpared :
      (i : ℕ) (xs : List (Elem F.Double t)) (mem : List ℕ) (j : ℕ)
      → IsSpared step i (length xs) j
      → get_or (write_loop t scale step size i xs mem) j 0 ≡ get_or mem j 0
  unfolding write_loop
  write_loop-IsSpared i [] mem j h = refl
  write_loop-IsSpared i (x ∷ xs) mem j h =
      let s = IsSpared-rest step i (length xs) j h in
      let rest = write_loop-IsSpared (i + step) xs (set mem i (load t scale x)) j s.1 in
      let same = get_or-set_ne mem i j (load t scale x) 0 s.0 in ground (arith, rest, same)

-- Shut, so that the call stays as the code writes it.
unfoldable Confines : ℕ → ℕ → ℕ → ℕ → Device → Call → Type 0
Confines p step i n d c = Confined p step i n d c.device

module _ (p step i n : ℕ) (d : Device) where
  Confines-intro : (c : Call) → Confined p step i n d c.device → Confines p step i n d c
  unfolding Confines
  Confines-intro c h = h

  if-Confines :
      (b : Bool) (x y : Call)
      → Confines p step i n d x
      → Confines p step i n d y
      → Confines p step i n d (if b then x else y)
  if-Confines true x y hx hy = hx
  if-Confines false x y hx hy = hy

module _ ⦃F : Doubles⦄ (t : Ftype) (xs : List (Elem F.Double t)) (info : Info F.Double)
    (prec : Prec) (d : Device) (p : ℕ) (valid : p < length d.regs) where
  abbrev Holds : Call → Type 0
  Holds = Confines p info.options.step info.options.offset (length xs) d

  same-Holds : (c : Call) → c.device ≡ d → Holds c
  same-Holds c e = Confines-intro p _ _ _ d c (rw e (Confined-refl p _ _ _ d))

  refused-Holds : Holds (refused write_alarm prec d)
  unfolding refused
  refused-Holds = same-Holds _ refl

  caught-Holds : Holds (caught prec d)
  unfolding caught
  caught-Holds = same-Holds _ refl

  copy_out-Confined :
      Confined p info.options.step info.options.offset (length xs) d (copy_out t info p xs d)
  unfolding copy_out
  copy_out-Confined =
      let r = reg_at d p in
      let o = info.options in
      let size = length r.mem_tx in
      let mem = write_loop t o.scale o.step size o.offset xs r.mem_tx in
      let at = reg_at-set_reg_self d p (record r { mem_tx = mem }) valid in
      record {
        same_info = ap (λ s. s.info) at;
        same_rx = ap (λ s. s.mem_rx) at;
        same_length =
            ap (λ s. length s.mem_tx) at
            ∙ length-write_loop t o.scale o.step size o.offset xs r.mem_tx;
        spared = λ j h.
            ap (λ s. get_or s.mem_tx j 0) at
            ∙ write_loop-IsSpared t o.scale o.step size o.offset xs r.mem_tx j h;
        others = λ q h. reg_at-set_reg_ne d p q (record r { mem_tx = mem }) h;
      }

  pub length-copy_out : length (copy_out t info p xs d).regs ≡ length d.regs
  unfolding copy_out
  length-copy_out = length-set_reg d p _

  pub committed-device : (q : Outcome) → (committed info prec q).device ≡ device_of q
  unfolding committed caught
  committed-device (done d1) = refl
  committed-device (throws e d1) = refl

  start_write-Holds : Holds (start_write t info p xs prec d)
  unfolding start_write
  start_write-Holds =
      let d1 = copy_out t info p xs d in
      let q = queue p true (waiter info) d1 in
      if-Confines p _ _ _ d info.options.commit _ _
        (Confines-intro p _ _ _ d (committed info prec q) (
          rw (committed-device q) (
            Confined-Framed p _ _ _ d d1 (device_of q) copy_out-Confined
              (queue-Framed p (waiter info) d1 (rw length-copy_out valid) true))))
        (Confines-intro p _ _ _ d _ copy_out-Confined)

  write_attached-Holds : Holds (write_attached t info xs prec d (some p))
  unfolding write_attached
  write_attached-Holds =
      if-Confines p _ _ _ d (not (is_writable info (reg_at d p) (length xs))) _ _ refused-Holds
        (if-Confines p _ _ _ d prec.pact _ _ (same-Holds _ refl) start_write-Holds)

  write_common-Holds : info.reg ≡ some p → Holds (write_register_common t xs (some info) prec d)
  unfolding write_register_common
  write_common-Holds at =
      if-Confines p _ _ _ d (is_supported t) _ _
        (subst (λ r. Holds (write_attached t info xs prec d r)) (sym at) write_attached-Holds)
        caught-Holds

  -- A write through a record of the register p, on every branch: of the words of the register only those
  -- at offset + k * step, for k below the number of elements, may change, the size of its memory and
  -- what was read stay, and no other register changes.
  pub write_register_common-Confined :
      info.reg ≡ some p
      → Confined p info.options.step info.options.offset
          (length xs)
          d
          (write_register_common t xs (some info) prec d).device
  unfolding Confines
  write_register_common-Confined at = write_common-Holds at
