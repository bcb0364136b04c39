-- ===== src/Wire/Exchange.antt =====
-- A word on its way: the device's command, the simulator's register, and the device's copy.
use feed_core.Prelude.{
  ℕ, ◌+◌, ◌*◌, ◌^◌, ◌<◌, ◌≡◌, refl, sym, ap, ◌∙◌, subst, Bool, true, false, not, List, [], ◌∷◌,
  some, none, arith, length, get_or, set, leb, ◌&&◌, ◌==◌, get_or-set_self, Bytes, if-elim,
  if-false,
}
use feed_core.Prelude.Bits.{land}
use feed_core.Prelude.Maps.{lookup, bytes_key, nat_key}
use feed_core.Device.Types.{
  DevReg, Device, reading, writing, reg_at, set_reg, Outcome, done, device_of,
}
use feed_core.Device.Register.{process, scan_one, scan_all, scan_interested, queue}
use feed_core.Device.Store.{reg_at-set_reg_self, length-set_reg}
use feed_core.Device.Send.{command_word}
use feed_core.Device.Receive.{
  all_true, start_queued, complete_reg, reply_offset, is_read_reply, keep_word, flag_word,
  store_word,
}
use feed_core.Device.Commands.{reply-command, or_read_small}
use feed_core.Support.Frame.{queue-Framed}
use feed_core.Sim.{SimReg, Simulator, command}
use feed_core.Sim.Table.{IsTabled}
use feed_core.Sim.Memory.{write-read}

-- The register p is there and its received words are `mem`.
pub record HasRx (p : ℕ) (mem : List ℕ) (d : Device) : Type 0 where
  pub there : p < length d.regs
  pub same_rx : (reg_at d p).mem_rx ≡ mem

module _ (p : ℕ) (mem : List ℕ) where
  set_reg-HasRx :
      (d : Device) (r : DevReg) → p < length d.regs → r.mem_rx ≡ mem → HasRx p mem (set_reg d p r)
  set_reg-HasRx d r h e = record {
    there = rw (length-set_reg d p r) h;
    same_rx = ap (λ s. s.mem_rx) (reg_at-set_reg_self d p r h) ∙ e;
  }

  process-HasRx : (d : Device) → HasRx p mem d → HasRx p mem (process p false d)
  unfolding process
  process-HasRx d h = set_reg-HasRx _ _ h.there h.same_rx

  scan_all-HasRx : (is : List ℕ) (d : Device) → HasRx p mem d → HasRx p mem (scan_all p is d)
  unfolding scan_all scan_one
  scan_all-HasRx [] d h = h
  scan_all-HasRx (i ∷ is) d h =
      scan_all-HasRx is _ (record { there = h.there; same_rx = unfold reg_at in h.same_rx })

-- The received words after a call, shut so that the outcome stays as the code writes it.
unfoldable Leaves : ℕ → List ℕ → Outcome → Type 0
Leaves p mem o = (reg_at (device_of o) p).mem_rx ≡ mem

module _ (p : ℕ) (mem : List ℕ) where
  Leaves-intro : (o : Outcome) → (reg_at (device_of o) p).mem_rx ≡ mem → Leaves p mem o
  unfolding Leaves
  Leaves-intro o h = h

  left : (o : Outcome) → Leaves p mem o → (reg_at (device_of o) p).mem_rx ≡ mem
  unfolding Leaves
  left o h = h

  queue-Leaves : (write : Bool) (d : Device) → HasRx p mem d → Leaves p mem (queue p write none d)
  queue-Leaves write d h =
      Leaves-intro _ ((queue-Framed p none d h.there write).same_rx ∙ h.same_rx)

  start_queued-Leaves : (d : Device) → HasRx p mem d → Leaves p mem (start_queued p d)
  unfolding start_queued
  start_queued-Leaves d h =
      if-elim (Leaves p mem) (reg_at d p).write_queued _ _
        (queue-Leaves true _ (set_reg-HasRx p mem d _ h.there h.same_rx))
        (if-elim (Leaves p mem) (reg_at d p).read_queued _ _
          (queue-Leaves false _ (set_reg-HasRx p mem d _ h.there h.same_rx))
          (Leaves-intro (done d) h.same_rx))

  scan_interested-HasRx : (d : Device) → HasRx p mem d → HasRx p mem (scan_interested p d)
  unfolding scan_interested
  scan_interested-HasRx d h = scan_all-HasRx p mem (reg_at d p).interested d h

  complete_reg-Leaves : (d : Device) → HasRx p mem d → Leaves p mem (complete_reg p d)
  unfolding complete_reg
  complete_reg-Leaves d h =
      if-elim (Leaves p mem) (not (all_true (reg_at d p).received)) _ _ (Leaves-intro _ h.same_rx) (
        start_queued-Leaves _ (
          scan_interested-HasRx _
            (process-HasRx p mem _ (set_reg-HasRx p mem d _ h.there h.same_rx))))

flag_word-mem_rx : (offset : ℕ) (r : DevReg) → (flag_word offset r).mem_rx ≡ r.mem_rx
unfolding flag_word
flag_word-mem_rx offset r =
    if-elim {A = DevReg} (λ x. x.mem_rx ≡ r.mem_rx) (get_or r.received offset false) _ _ refl refl

keep_word-mem_rx :
    (b : Bool) (offset value : ℕ) (r : DevReg)
    → b ≡ true
    → (keep_word b offset value r).mem_rx ≡ set r.mem_rx offset value
unfolding keep_word
keep_word-mem_rx true offset value r e = refl
keep_word-mem_rx false offset value r e = cc

within : (b : Bool) (n i : ℕ) → i < n → (b && leb n i) ≡ false
within true n i h = ground arith
within false n i h = refl

-- A word that answers a read, at an offset within the register: the register has it there.
store_word-Leaves :
    (p cmd_addr value : ℕ) (d : Device)
    → p < length d.regs
    → is_read_reply cmd_addr ≡ true
    → reply_offset cmd_addr (reg_at d p).info.base_addr < length (reg_at d p).mem_rx
    → Leaves p
        (set (reg_at d p).mem_rx (reply_offset cmd_addr (reg_at d p).info.base_addr) value)
        (store_word p cmd_addr value d)
unfolding store_word
store_word-Leaves p cmd_addr value d there is_read inside =
    let r = reg_at d p in
    let offset = reply_offset cmd_addr r.info.base_addr in
    let mem = set r.mem_rx offset value in
    let stored = keep_word (is_read_reply cmd_addr) offset value r in
    let kept : stored.mem_rx ≡ mem =
      keep_word-mem_rx (is_read_reply cmd_addr) offset value r is_read in
    let flagged = flag_word offset stored in
    let h = set_reg-HasRx p mem d flagged there (flag_word-mem_rx offset stored ∙ kept) in
    if-false (Leaves p mem) (is_read_reply cmd_addr && leb (length r.mem_rx) offset) _ _
      (within (is_read_reply cmd_addr) (length r.mem_rx) offset inside)
      (if-elim (Leaves p mem) (leb (length r.received) offset) _ _
        (Leaves-intro p mem _ (set_reg-HasRx p mem d stored there kept).same_rx)
        (if-elim (Leaves p mem) (flagged.nremaining == 0) _ _ (complete_reg-Leaves p mem _ h)
          (Leaves-intro p mem _ h.same_rx)))

stored_word :
    (p cmd_addr value offset : ℕ) (d : Device)
    → p < length d.regs
    → is_read_reply cmd_addr ≡ true
    → reply_offset cmd_addr (reg_at d p).info.base_addr ≡ offset
    → offset < length (reg_at d p).mem_rx
    → get_or (reg_at (device_of (store_word p cmd_addr value d)) p).mem_rx offset 0 ≡ value
stored_word p cmd_addr value offset d there is_read at inside =
    let mem = (reg_at d p).mem_rx in
    let rx = left p _ _ (
      store_word-Leaves p cmd_addr value d there is_read
        (subst (λ o. o < length mem) (sym at) inside)) in
    ap (λ m. get_or m offset 0) (rx ∙ ap (λ o. set mem o value) at)
    ∙ get_or-set_self mem offset value 0 inside

writing_word :
    (base offset : ℕ) → base + offset < 2 ^ 24 → command_word writing base offset ≡ base + offset
unfolding command_word
writing_word base offset h = omega arith

reading_word :
    (base offset : ℕ)
    → base + offset < 2 ^ 24
    → command_word reading base offset ≡ base + offset + 2 ^ 28
unfolding command_word
reading_word base offset h = or_read_small base offset h

-- The command word of a read, which is its own reply with a clear status.
read_word_command :
    (base offset : ℕ)
    → base + offset < 2 ^ 24
    → let word = command_word reading base offset in
      (word ≡ base + offset + 2 ^ 28)
      × (is_read_reply word ≡ true)
      × (reply_offset word base ≡ offset)
read_word_command base offset h =
    let word = command_word reading base offset in
    let r = reply-command reading base offset 0 h (omega arith) in
    let e : word + 0 * 2 ^ 24 ≡ word = omega arith in
    (
      reading_word base offset h,
      ap is_read_reply (sym e) ∙ r.1,
      ap (λ c. reply_offset c base) (sym e) ∙ r.2,
    )

-- A word of a register goes to the simulator and comes back: when the simulator's table is sound and
-- leads the address of the word, of 24 bits, to a register, and the word is within the device's
-- register, the command for a write puts the value there, within the mask of the simulator's register,
-- and the answer to the command for a read that follows leaves this word in the device's register.
pub write-read_exchange :
    (s : Simulator) (d : Device) (p offset value : ℕ) (name : Bytes)
    → IsTabled s
    → p < length d.regs
    → (reg_at d p).info.base_addr + offset < 2 ^ 24
    → lookup ((reg_at d p).info.base_addr + offset) s.reg_by_addr ≡ some name
    → offset < length (reg_at d p).mem_rx
    → let base = (reg_at d p).info.base_addr in
      let read = command_word reading base offset in
      let s1 = (command (command_word writing base offset) value s).simulator in
      let answer = (command read 0 s1).data_word in
      (reg : SimReg) × (lookup name s.reg_by_name ≡ some reg)
      × (get_or (reg_at (device_of (store_word p read answer d)) p).mem_rx offset 0
          ≡ land 32 value reg.mask)
write-read_exchange s d p offset value name tabled there low mapped inside =
    let base = (reg_at d p).info.base_addr in
    let w = read_word_command base offset low in
    let m = (write-read s (base + offset) value 0 name tabled low mapped).1 in
    (
      m.0,
      m.1,
      rw (writing_word base offset low, w.0)
          (stored_word p (base + offset + 2 ^ 28) _ offset d there
              (subst (λ c. is_read_reply c ≡ true) w.0 w.1)
              (subst (λ c. reply_offset c base ≡ offset) w.0 w.2) inside
            ∙ m.2),
    )
