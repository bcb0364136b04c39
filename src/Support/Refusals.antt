-- ===== src/Support/Refusals.antt =====
-- When a write of src/driver/devreg.cpp is refused, and what a refused write leaves.
use feed_core.Prelude.{
  ℕ, ◌+◌, ◌<◌, ◌≤◌, ◌≡◌, ◌≢◌, ◌↔◌, ◌⊎◌, refl, sym, ◌∙◌, Bool, true, false, not, List, [], ◌∷◌, ◌++◌,
  Option, none, some, arith, length, if◌then◌else◌,
}
use feed_core.Device.Types.{
  DevReg, Device, reg_at, Outcome, done, throws, write_alarm, invalid_severity,
}
use feed_core.Device.Register.{queue}
use feed_core.Support.Types.{
  Doubles, Ftype, is_supported, Elem, Prec, Info, Call, success, enodev, caught, refused, waiter,
}
use feed_core.Support.Write.{
  copy_out, committed, is_writable, start_write, write_attached, write_register_common,
}

-- No register, a read-only one, or an array that starts or ends behind it.
abbrev pub Inaccessible : {D : Type 0} → Option ℕ → Info D → ℕ → Device → Type 0
Inaccessible none info count d = Unit
Inaccessible (some p) info count d =
    let r = reg_at d p in
    (r.info.writable ≡ false)
    ⊎ ((length r.mem_tx ≤ info.options.offset) ⊎ (length r.mem_tx < info.options.offset + count))

unfoldable pub Refused : Prec → Device → Call → Type 0
Refused prec d c =
    (c.status ≡ enodev)
    × (c.device ≡ d)
    × (c.prec ≡ record prec {
      pact = false;
      alarms = prec.alarms ++ (write_alarm, invalid_severity) ∷ [];
    })

writable_iff :
    {D : Type 0} (info : Info D) (r : DevReg) (count : ℕ)
    → (not (is_writable info r count) ≡ true) ↔ (
        (r.info.writable ≡ false)
        ⊎ ((length r.mem_tx ≤ info.options.offset)
            ⊎ (length r.mem_tx < info.options.offset + count)))
writable_iff info r count = ground arith

success-ne-enodev : success ≢ enodev
success-ne-enodev e = cc

false-ne-true : false ≢ true
false-ne-true e = cc

-- The two sides of a test that refuses.
if-refused :
    (b : Bool) (A : Type 0) (prec : Prec) (d : Device) (c : Call)
    → (b ≡ true) ↔ A
    → c.status ≡ success
    → let r = if b then refused write_alarm prec d else c in
      ((r.status ≡ enodev) ↔ A) × (r.status ≡ enodev → Refused prec d r)
unfolding refused Refused
if-refused true A prec d c h s = ((λ e. h.0 refl, λ a. refl), λ e. (refl, refl, refl))
if-refused false A prec d c h s = (
  (λ e. absurd (success-ne-enodev (sym s ∙ e)), λ a. absurd (false-ne-true (h.1 a))),
  λ e. absurd (success-ne-enodev (sym s ∙ e)),
)

if-status :
    (b : Bool) (x y : Call)
    → x.status ≡ success
    → y.status ≡ success
    → (if b then x else y).status ≡ success
if-status true x y hx hy = hx
if-status false x y hx hy = hy

module _ ⦃F : Doubles⦄ (t : Ftype) (xs : List (Elem F.Double t)) (info : Info F.Double)
    (prec : Prec) (d : Device) where
  committed-status : (q : Outcome) → (committed info prec q).status ≡ success
  unfolding committed caught
  committed-status (done d1) = refl
  committed-status (throws e d1) = refl

  start_write-status : (p : ℕ) → (start_write t info p xs prec d).status ≡ success
  unfolding start_write
  start_write-status p =
      if-status info.options.commit _ _
        (committed-status (queue p true (waiter info) (copy_out t info p xs d))) refl

  accepted-status :
      (p : ℕ)
      → (if prec.pact
          then record { status = success; prec = record prec { pact = false }; device = d }
          else start_write t info p xs prec d).status
        ≡ success
  accepted-status p = if-status prec.pact _ _ refl (start_write-status p)

  attached-Refused :
      (o : Option ℕ)
      → let c = write_attached t info xs prec d o in
        ((c.status ≡ enodev) ↔ Inaccessible o info (length xs) d)
        × (c.status ≡ enodev → Refused prec d c)
  unfolding write_attached
  attached-Refused none = unfold refused Refused in ((λ e. tt, λ a. refl), λ e. (refl, refl, refl))
  attached-Refused (some p) =
      if-refused (not (is_writable info (reg_at d p) (length xs))) _ prec d _
        (writable_iff info (reg_at d p) (length xs)) (accepted-status p)

  -- A write of a supported type is answered with ENODEV exactly when the record has no register, or one
  -- that cannot be written, or the array starts or ends behind the register; then the device is as it
  -- was, the record is not active, and WRITE_ALARM of severity INVALID is raised.
  pub write_register_common-Refused :
      is_supported t ≡ true
      → let c = write_register_common t xs (some info) prec d in
        ((c.status ≡ enodev) ↔ Inaccessible info.reg info (length xs) d)
        × (c.status ≡ enodev → Refused prec d c)
  unfolding write_register_common
  write_register_common-Refused supported = rw supported (attached-Refused info.reg)
