-- ===== src/Support/Frame.antt =====
-- What DevReg::queue leaves as it was of a register's memories.
use feed_core.Prelude.{
  ℕ, ◌<◌, ◌≡◌, ◌≢◌, refl, ap, ◌∙◌, Bool, true, false, List, [], ◌∷◌, ◌++◌, not, ◌&&◌, ◌||◌, Option,
  length, if◌then◌else◌,
}
use feed_core.Prelude.Exn.{Exn}
use feed_core.Device.Types.{
  RegState, invalid, in_sync, reading, writing, DevReg, Device, reg_at, set_reg, Outcome, done,
  throws, device_of,
}
use feed_core.Device.Register.{queue, queue_in, queue_idle, flag_write, flag_read, join_read}
use feed_core.Device.Store.{reg_at-set_reg_self, reg_at-set_reg_ne}
use feed_core.Support.Types.{Call}

-- The register p keeps its description and its memories, and the device its state and size.
pub record Framed (p : ℕ) (d d' : Device) : Type 0 where
  pub same_info : (reg_at d' p).info ≡ (reg_at d p).info
  pub same_tx : (reg_at d' p).mem_tx ≡ (reg_at d p).mem_tx
  pub same_rx : (reg_at d' p).mem_rx ≡ (reg_at d p).mem_rx
  pub same_current : d'.current ≡ d.current
  pub others : (q : ℕ) → p ≢ q → reg_at d' q ≡ reg_at d q

set_reg-Framed :
    (p : ℕ) (d : Device) (r : DevReg) (sending : List ℕ)
    → p < length d.regs
    → r.info ≡ (reg_at d p).info
    → r.mem_tx ≡ (reg_at d p).mem_tx
    → r.mem_rx ≡ (reg_at d p).mem_rx
    → Framed p d (set_reg (record d { reg_send = sending }) p r)
set_reg-Framed p d r sending valid i t x =
    let at = reg_at-set_reg_self (record d { reg_send = sending }) p r valid in
    record {
      same_info = ap (λ s. s.info) at ∙ i;
      same_tx = ap (λ s. s.mem_tx) at ∙ t;
      same_rx = ap (λ s. s.mem_rx) at ∙ x;
      same_current = unfold set_reg in refl;
      others = λ q n.
          reg_at-set_reg_ne (record d { reg_send = sending }) p q r n ∙ (unfold reg_at in refl);
    }

pub Framed-refl : (p : ℕ) (d : Device) → Framed p d d
Framed-refl p d = record {
  same_info = refl;
  same_tx = refl;
  same_rx = refl;
  same_current = refl;
  others = λ q n. refl;
}

-- Shut, so that the outcome stays as the code writes it.
unfoldable OutcomeFramed : ℕ → Device → Outcome → Type 0
OutcomeFramed p d o = Framed p d (device_of o)

throws-Framed : (p : ℕ) (d : Device) (e : Exn) → OutcomeFramed p d (throws e d)
unfolding OutcomeFramed
throws-Framed p d e = Framed-refl p d

done-Framed : (p : ℕ) (d d' : Device) → Framed p d d' → OutcomeFramed p d (done d')
unfolding OutcomeFramed
done-Framed p d d' h = h

if-Framed :
    (b : Bool) (p : ℕ) (d : Device) (x y : Outcome)
    → OutcomeFramed p d x
    → OutcomeFramed p d y
    → OutcomeFramed p d (if b then x else y)
if-Framed true p d x y hx hy = hx
if-Framed false p d x y hx hy = hy

module _ (p : ℕ) (action : Option ℕ) (d : Device) (valid : p < length d.regs) where
  queue_idle-Framed : (write : Bool) → OutcomeFramed p d (queue_idle p write action d)
  unfolding queue_idle
  queue_idle-Framed write =
      let r = reg_at d p in
      if-Framed ((not write && not r.info.readable) || (write && not r.info.writable)) p d _ _
        (throws-Framed p d _)
        (done-Framed p d _ (set_reg-Framed p d _ (d.reg_send ++ p ∷ []) valid refl refl refl))

  flag_write-Framed : Framed p d (flag_write p action d)
  unfolding flag_write
  flag_write-Framed = set_reg-Framed p d _ d.reg_send valid refl refl refl

  flag_read-Framed : Framed p d (flag_read p action d)
  unfolding flag_read
  flag_read-Framed = set_reg-Framed p d _ d.reg_send valid refl refl refl

  join_read-Framed : Framed p d (join_read p action d)
  unfolding join_read
  join_read-Framed = set_reg-Framed p d _ d.reg_send valid refl refl refl

  queue_in-Framed : (s : RegState) (write : Bool) → OutcomeFramed p d (queue_in s p write action d)
  unfolding queue_in
  queue_in-Framed invalid write = queue_idle-Framed write
  queue_in-Framed in_sync write = queue_idle-Framed write
  queue_in-Framed writing true = done-Framed p d _ flag_write-Framed
  queue_in-Framed writing false = done-Framed p d _ flag_read-Framed
  queue_in-Framed reading true = done-Framed p d _ flag_write-Framed
  queue_in-Framed reading false = done-Framed p d _ join_read-Framed

  pub queue-Framed : (write : Bool) → Framed p d (device_of (queue p write action d))
  unfolding queue OutcomeFramed
  queue-Framed write = queue_in-Framed (reg_at d p).state write

-- A fact of the device after either call.
pub if-device :
    (b : Bool) (x y : Call) (P : Device → Type 0)
    → P x.device
    → P y.device
    → P (if b then x else y).device
if-device true x y P hx hy = hx
if-device false x y P hx hy = hy
