-- ===== src/Device/Waiting.antt =====
-- The records that wait on a register, through DevReg::queue, and what it refuses.
use mathlib.Core.List.Perm
use mathlib.Core.List.{Perm, perm_middle, perm_append_singleton}
use feed_core.Prelude.{
  ℕ, ◌<◌, ◌≡◌, ◌≢◌, ◌↔◌, refl, sym, ◌∙◌, Bool, true, false, List, [], ◌∷◌, ◌++◌, append_assoc,
  Option, none, some, arith, length, if◌then◌else◌, subst,
}
use feed_core.Prelude.Exn.{Exn, runtime_error}
use feed_core.Device.Types.{
  RegState, invalid, in_sync, reading, writing, inprogress, DevReg, Device, reg_at, set_reg,
  Outcome, done, throws,
}
use feed_core.Device.Register.{
  queue, queue_in, queue_idle, flag_write, flag_read, join_read, with_action,
}
use feed_core.Device.Store.{reg_at-set_reg_self, reg_at-set_reg_ne}

-- The records that wait on a register, for any of its operations.
abbrev pub waiting : DevReg → List ℕ
waiting r = r.records_inprog ++ (r.records_write ++ r.records_read)

abbrev pub joined : Option ℕ → List ℕ → List ℕ
joined none l = l
joined (some a) l = a ∷ l

joined_inprog :
    (action : Option ℕ) (xs ys : List ℕ)
    → Perm (with_action action xs ++ ys) (joined action (xs ++ ys))
joined_inprog none xs ys = Perm.refl _
joined_inprog (some a) xs ys = rw (append_assoc xs (a ∷ []) ys) (perm_middle xs ys)

joined_last : (action : Option ℕ) (xs : List ℕ) → Perm (with_action action xs) (joined action xs)
joined_last none xs = Perm.refl _
joined_last (some a) xs = perm_append_singleton a xs

joined_later :
    (action : Option ℕ) (xs ys zs : List ℕ)
    → Perm ys (joined action zs)
    → Perm (xs ++ ys) (joined action (xs ++ zs))
joined_later none xs ys zs h = Perm.append (Perm.refl xs) h
joined_later (some a) xs ys zs h = Perm.trans (Perm.append (Perm.refl xs) h) (perm_middle xs zs)

-- What a call of `queue` for a register leaves: one more record waiting, if there is one, and all
-- else as it was.
pub record Kept (p : ℕ) (action : Option ℕ) (d d' : Device) : Type 0 where
  pub waits : Perm (waiting (reg_at d' p)) (joined action (waiting (reg_at d p)))
  pub others : (q : ℕ) → p ≢ q → reg_at d' q ≡ reg_at d q
  pub same_records : d'.records ≡ d.records

pub done_injective : {d d' : Device} → done d ≡ done d' → d ≡ d'
done_injective e = cc

unguarded :
    (b : Bool) (x : Exn) (d0 d : Device) {d' : Device}
    → (if b then throws x d0 else done d) ≡ done d'
    → d ≡ d'
unguarded true x d0 d e = cc
unguarded false x d0 d e = done_injective e

set_reg-Kept :
    (p : ℕ) (action : Option ℕ) (d : Device) (r : DevReg) (queue_after : List ℕ)
    → p < length d.regs
    → Perm (waiting r) (joined action (waiting (reg_at d p)))
    → Kept p action d (set_reg (record d { reg_send = queue_after }) p r)
unfolding set_reg
set_reg-Kept p action d r queue_after h w = record {
  waits =
      subst (λ t. Perm (waiting t) (joined action (waiting (reg_at d p))))
        (sym (reg_at-set_reg_self (record d { reg_send = queue_after }) p r h)) w;
  others = λ q n.
      reg_at-set_reg_ne (record d { reg_send = queue_after }) p q r n ∙ (unfold reg_at in refl);
  same_records = refl;
}

module _ (p : ℕ) (action : Option ℕ) (d : Device) (valid : p < length d.regs) where
  flag_write-Kept : Kept p action d (flag_write p action d)
  unfolding flag_write
  flag_write-Kept =
      let r = reg_at d p in
      set_reg-Kept p action d _ d.reg_send valid (
        joined_later action r.records_inprog _ _
          (joined_inprog action r.records_write r.records_read))

  flag_read-Kept : Kept p action d (flag_read p action d)
  unfolding flag_read
  flag_read-Kept =
      let r = reg_at d p in
      set_reg-Kept p action d _ d.reg_send valid (
        joined_later action r.records_inprog _ _
          (joined_later action r.records_write _ _ (joined_last action r.records_read)))

  join_read-Kept : Kept p action d (join_read p action d)
  unfolding join_read
  join_read-Kept =
      let r = reg_at d p in
      set_reg-Kept p action d _ d.reg_send valid
        (joined_inprog action r.records_inprog (r.records_write ++ r.records_read))

  queue_idle-Kept :
      (write : Bool) {d' : Device} → queue_idle p write action d ≡ done d' → Kept p action d d'
  unfolding queue_idle
  queue_idle-Kept write e =
      let r = reg_at d p in
      subst (Kept p action d) (unguarded _ _ _ _ e) (
        set_reg-Kept p action d _ (d.reg_send ++ p ∷ []) valid
          (joined_inprog action r.records_inprog (r.records_write ++ r.records_read)))

  queue_in-Kept :
      (s : RegState) (write : Bool) {d' : Device}
      → queue_in s p write action d ≡ done d'
      → Kept p action d d'
  unfolding queue_in
  queue_in-Kept invalid write e = queue_idle-Kept write e
  queue_in-Kept in_sync write e = queue_idle-Kept write e
  queue_in-Kept writing true e = subst (Kept p action d) (done_injective e) flag_write-Kept
  queue_in-Kept writing false e = subst (Kept p action d) (done_injective e) flag_read-Kept
  queue_in-Kept reading true e = subst (Kept p action d) (done_injective e) flag_write-Kept
  queue_in-Kept reading false e = subst (Kept p action d) (done_injective e) join_read-Kept

-- A call of `queue` for a register that is there, when it returns, keeps every record that waits
-- on the register and adds the one that it is given, and changes neither another register nor the
-- records that are to be completed.
pub queue-Kept :
    (p : ℕ) (write : Bool) (action : Option ℕ) (d d' : Device)
    → p < length d.regs
    → queue p write action d ≡ done d'
    → Kept p action d d'
unfolding queue
queue-Kept p write action d d' valid e = queue_in-Kept p action d valid (reg_at d p).state write e

-- An operation that the register does not support, asked of it when it is idle.
abbrev pub Unsupported : Bool → RegState → DevReg → Type 0
Unsupported write s r =
    (inprogress s ≡ false) × ((if write then r.info.writable else r.info.readable) ≡ false)

queue_idle_throws :
    (p : ℕ) (write : Bool) (action : Option ℕ) (d : Device)
    → (if write then (reg_at d p).info.writable else (reg_at d p).info.readable) ≡ false
    → queue_idle p write action d
      ≡ throws (runtime_error "Register does not support requested operation" []) d
unfolding queue_idle
queue_idle_throws p true action d h = rw h
queue_idle_throws p false action d h = rw h

abbrev pub returns : Outcome → Bool
returns (done d) = true
returns (throws e d) = false

queue_idle-returns :
    (p : ℕ) (write : Bool) (action : Option ℕ) (d : Device)
    → returns (queue_idle p write action d)
      ≡ (if write then (reg_at d p).info.writable else (reg_at d p).info.readable)
unfolding queue_idle
queue_idle-returns p true action d = ground arith
queue_idle-returns p false action d = ground arith

queue_in-returns :
    (s : RegState) (p : ℕ) (write : Bool) (action : Option ℕ) (d : Device)
    → ((returns (queue_in s p write action d) ≡ false) ↔ Unsupported write s (reg_at d p))
      × (Unsupported write s (reg_at d p)
          → queue_in s p write action d
            ≡ throws (runtime_error "Register does not support requested operation" []) d)
unfolding queue_in
queue_in-returns invalid p write action d =
    rw (queue_idle-returns p write action d)
      (((λ h. (refl, h)), (λ u. u.1)), (λ u. queue_idle_throws p write action d u.1))
queue_in-returns in_sync p write action d =
    rw (queue_idle-returns p write action d)
      (((λ h. (refl, h)), (λ u. u.1)), (λ u. queue_idle_throws p write action d u.1))
queue_in-returns writing p write action d = (((λ h. cc), (λ u. cc (u.0))), (λ u. cc (u.0)))
queue_in-returns reading p write action d = (((λ h. cc), (λ u. cc (u.0))), (λ u. cc (u.0)))

-- Every call of `queue` either throws or returns: it throws, and leaves the device as it was, exactly
-- when the register is idle and does not support the operation.
pub queue-Unsupported :
    (p : ℕ) (write : Bool) (action : Option ℕ) (d : Device)
    → ((returns (queue p write action d) ≡ false)
        ↔ Unsupported write (reg_at d p).state (reg_at d p))
      × (Unsupported write (reg_at d p).state (reg_at d p)
          → queue p write action d
            ≡ throws (runtime_error "Register does not support requested operation" []) d)
unfolding queue
queue-Unsupported p write action d = queue_in-returns (reg_at d p).state p write action d
