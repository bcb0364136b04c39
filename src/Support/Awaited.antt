-- ===== src/Support/Awaited.antt =====
-- The records that a write or a read of src/driver/devreg.cpp leaves active, and where they wait.
use mathlib.Core.List.{Perm}
use feed_core.Prelude.{
  ℕ, ◌<◌, ◌≡◌, refl, sym, ap, ◌∙◌, subst, Bool, true, false, not, ◌&&◌, ◌||◌, List, ◌∷◌, none, some,
  length, if◌then◌else◌, Bool-cases, inl, inr,
}
use feed_core.Device.Types.{
  Device, reg_at, Outcome, done, throws, active, device_of, Stat, read_alarm, write_alarm,
}
use feed_core.Device.Register.{queue}
use feed_core.Device.Waiting.{waiting, queue-Kept, joined}
use feed_core.Device.Store.{reg_at-set_reg_self}
use feed_core.Support.Frame.{Framed, queue-Framed}
use feed_core.Support.Types.{
  Doubles, Ftype, is_supported, Elem, Prec, Info, Call, caught, refused, waiter,
}
use feed_core.Support.Write.{
  copy_out, committed, is_writable, start_write, write_attached, write_register_common,
}
use feed_core.Support.Read.{
  is_allowed, read_attached, read_register_common, copy_in, stamped, is_cached, begun, begin_read,
}
use feed_core.Support.Bounds.{length-copy_out}

-- The call that leaves the record active has added it to those that wait on the register.
pub record Awaited (p self : ℕ) (d : Device) (c : Call) : Type 0 where
  pub waits : Perm (waiting (reg_at c.device p)) (self ∷ waiting (reg_at d p))
  pub is_active : active c.device.current ≡ true

-- Shut, so that the call stays as the code writes it.
unfoldable Awaits : ℕ → ℕ → Device → Call → Type 0
Awaits p self d c = c.prec.pact ≡ true → Awaited p self d c

inactive-Awaits : (p self : ℕ) (d : Device) (c : Call) → c.prec.pact ≡ false → Awaits p self d c
unfolding Awaits
inactive-Awaits p self d c e h = cc

refused-Awaits :
    (p self : ℕ) (d d1 : Device) (stat : Stat) (prec : Prec)
    → Awaits p self d (refused stat prec d1)
unfolding refused
refused-Awaits p self d d1 stat prec = inactive-Awaits p self d _ refl

caught-Awaits : (p self : ℕ) (d d1 : Device) (prec : Prec) → Awaits p self d (caught prec d1)
unfolding caught
caught-Awaits p self d d1 prec = inactive-Awaits p self d _ refl

if-Awaits :
    (b : Bool) (p self : ℕ) (d : Device) (x y : Call)
    → Awaits p self d x
    → Awaits p self d y
    → Awaits p self d (if b then x else y)
if-Awaits true p self d x y hx hy = hx
if-Awaits false p self d x y hx hy = hy

both : (p w a : Bool) → p ≡ false → (p || (w && a)) ≡ true → (w ≡ true) × (a ≡ true)
both true w a e h = cc
both false true true e h = (refl, refl)
both false true false e h = cc
both false false a e h = cc

uncached : (i w p a : Bool) → (i || not w || p || not a) ≡ false → (w ≡ true) × (a ≡ true)
uncached false true false true h = (refl, refl)
uncached false true false false h = cc
uncached false true true a h = cc
uncached false false p a h = cc
uncached true w p a h = cc

queued :
    {D : Type 0} (info : Info D) (write : Bool) (p : ℕ) (d d1 : Device)
    → p < length d.regs
    → info.options.wait ≡ true
    → queue p write (waiter info) d ≡ done d1
    → Perm (waiting (reg_at d1 p)) (info.self ∷ waiting (reg_at d p))
queued info write p d d1 valid w from =
    subst
      (λ b.
        Perm (waiting (reg_at d1 p))
          (joined (if b then some info.self else none) (waiting (reg_at d p))))
      w (queue-Kept p write (waiter info) d d1 valid from).waits

-- After the call of DevReg::queue, for a record that was not active.
committed-Awaits :
    {D : Type 0} (info : Info D) (prec : Prec) (p : ℕ) (d : Device) (q : Outcome)
    → p < length d.regs
    → prec.pact ≡ false
    → queue p true (waiter info) d ≡ q
    → Awaits p info.self d (committed info prec q)
unfolding Awaits committed caught
committed-Awaits info prec p d (throws e d1) valid idle from h = cc
committed-Awaits info prec p d (done d1) valid idle from h =
    let b = both prec.pact info.options.wait (active d1.current) idle h in
    record { waits = queued info true p d d1 valid b.0 from; is_active = b.1 }

-- For a read, which the record waits for.
begun-Awaits :
    {D : Type 0} (info : Info D) (prec : Prec) (p : ℕ) (d : Device) (q : Outcome)
    → p < length d.regs
    → info.options.wait ≡ true
    → active d.current ≡ true
    → queue p false (waiter info) d ≡ q
    → Awaits p info.self d (begun prec q)
unfolding Awaits begun caught
begun-Awaits info prec p d (throws e d1) valid w live from h = cc
begun-Awaits info prec p d (done d1) valid w live from h =
    let f : Framed p d (device_of (done d1)) =
      subst (λ o. Framed p d (device_of o)) from (queue-Framed p (waiter info) d valid false) in
    record {
      waits = queued info false p d d1 valid w from;
      is_active = ap active f.same_current ∙ live;
    }

module _ ⦃F : Doubles⦄ (t : Ftype) (xs : List (Elem F.Double t)) (info : Info F.Double)
    (prec : Prec) (d : Device) (p : ℕ) (valid : p < length d.regs) where
  copy_out-waiting : waiting (reg_at (copy_out t info p xs d) p) ≡ waiting (reg_at d p)
  unfolding copy_out
  copy_out-waiting = ap waiting (reg_at-set_reg_self d p _ valid)

  behind_copy : (c : Call) → Awaits p info.self (copy_out t info p xs d) c → Awaits p info.self d c
  unfolding Awaits
  behind_copy c a h = record {
    waits =
        subst (λ w. Perm (waiting (reg_at c.device p)) (info.self ∷ w)) copy_out-waiting
          (a h).waits;
    is_active = (a h).is_active;
  }

  start_write-Awaits : prec.pact ≡ false → Awaits p info.self d (start_write t info p xs prec d)
  unfolding start_write
  start_write-Awaits idle =
      let d1 = copy_out t info p xs d in
      if-Awaits info.options.commit p info.self d _ _
        (behind_copy _ (
          committed-Awaits info prec p d1 (queue p true (waiter info) d1)
            (rw (length-copy_out t xs info prec d p valid) valid) idle refl))
        (inactive-Awaits p info.self d _ idle)

  write_attached-Awaits :
      prec.pact ≡ false → Awaits p info.self d (write_attached t info xs prec d (some p))
  unfolding write_attached
  write_attached-Awaits idle =
      if-Awaits (not (is_writable info (reg_at d p) (length xs))) p info.self d _ _
        (refused-Awaits p info.self d d write_alarm prec)
        (if-Awaits prec.pact p info.self d _ _ (inactive-Awaits p info.self d _ refl)
          (start_write-Awaits idle))

  write_common-Awaits :
      info.reg ≡ some p
      → prec.pact ≡ false
      → Awaits p info.self d (write_register_common t xs (some info) prec d)
  unfolding write_register_common
  write_common-Awaits at idle =
      if-Awaits (is_supported t) p info.self d _ _
        (subst (λ o. Awaits p info.self d (write_attached t info xs prec d o)) (sym at)
          (write_attached-Awaits idle))
        (caught-Awaits p info.self d d prec)

  begin_read-Awaits :
      is_cached info prec d ≡ false → Awaits p info.self d (begin_read t info p xs prec d).call
  unfolding begin_read
  begin_read-Awaits c =
      let s = uncached prec.io_intr info.options.wait prec.pact (active d.current) c in
      begun-Awaits info prec p d (queue p false (waiter info) d) valid s.0 s.1 refl

  read_attached-Awaits :
      (array : Bool) → Awaits p info.self d (read_attached t array info xs prec d (some p)).call
  unfolding read_attached
  read_attached-Awaits array = elim (Bool-cases (is_allowed info (reg_at d p))) [
    | inr e ↦ rw e (refused-Awaits p info.self d d read_alarm prec)
    | inl e ↦ elim (Bool-cases (is_cached info prec d)) [
      | inl c ↦ rw (e, c) (unfold copy_in stamped in inactive-Awaits p info.self d _ refl)
      | inr c ↦ rw (e, c) (begin_read-Awaits c)
    ]
  ]

  read_common-Awaits :
      (array : Bool)
      → info.reg ≡ some p
      → Awaits p info.self d (read_register_common t array xs (some info) prec d).call
  unfolding read_register_common
  read_common-Awaits array at = elim (Bool-cases (is_supported t)) [
    | inr e ↦ rw e (caught-Awaits p info.self d d prec)
    | inl e ↦ rw e (
        subst (λ o. Awaits p info.self d (read_attached t array info xs prec d o).call) (sym at)
          (read_attached-Awaits array))
  ]

  -- A write or a read for a record that is not active, on every branch: when it leaves the record active,
  -- the record has joined those that wait on the register, all of which still do, and the device is in a
  -- state with communication.
  pub access-Awaited :
      (array : Bool)
      → info.reg ≡ some p
      → prec.pact ≡ false
      → let w = write_register_common t xs (some info) prec d in
        let r = (read_register_common t array xs (some info) prec d).call in
        (w.prec.pact ≡ true → Awaited p info.self d w)
        × (r.prec.pact ≡ true → Awaited p info.self d r)
  unfolding Awaits
  access-Awaited array at idle = (write_common-Awaits at idle, read_common-Awaits array at)
