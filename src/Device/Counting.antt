-- ===== src/Device/Counting.antt =====
-- The count of missing words of a register against its flags, through one answered word, where
-- Device::handle_process has the assertion on completion.
use feed_core.Prelude.{
  ℕ, zero, suc, ◌<◌, ◌≤◌, ◌≡◌, refl, ap, sym, ◌∙◌, Bool, true, false, not, ◌&&◌, ◌||◌, List, [],
  ◌∷◌, none, Option, arith, length, length-replicate, length-set, get_or, ◌^◌, set, replicate, leb,
  ◌==◌, ==_iff, if◌then◌else◌, Bool-cases, inl, inr, subst,
}
use feed_core.Prelude.Exn.{Exn}
use feed_core.Device.Types.{
  RegState, invalid, in_sync, reading, writing, DevReg, Device, reg_at, set_reg, no_reg, Outcome,
  done, throws,
}
use feed_core.Device.Register.{
  process, scan_interested, scan_all, scan_one, queue, queue_in, queue_idle, flag_write, flag_read,
  join_read,
}
use feed_core.Device.Receive.{
  store_word, keep_word, flag_word, complete_reg, start_queued, all_true, reply_offset,
  is_read_reply,
}
use feed_core.Device.Worker.{is_exception}
use feed_core.Device.Store.{reg_at-set_reg_self, length-set_reg}

abbrev pub count_false : List Bool → ℕ
count_false [] = 0
count_false (true ∷ bs) = count_false bs
count_false (false ∷ bs) = suc (count_false bs)

-- `nremaining` counts the flags that are not set, and the arrays have one length, below 2 ^ 32.
pub record IsCounted (r : DevReg) : Type 0 where
  pub counted : r.nremaining ≡ count_false r.received
  pub rx_length : length r.mem_rx ≡ length r.received
  pub tx_length : length r.mem_tx ≡ length r.received
  pub bounded : length r.received < 2 ^ 32

all_true-count_false : (bs : List Bool) → count_false bs ≡ 0 → all_true bs ≡ true
all_true-count_false [] h = refl
all_true-count_false (true ∷ bs) h = all_true-count_false bs h
all_true-count_false (false ∷ bs) h = absurd (omega arith)

count_false-set :
    (bs : List Bool) (i : ℕ)
    → i < length bs
    → get_or bs i false ≡ false
    → suc (count_false (set bs i true)) ≡ count_false bs
count_false-set [] i h g = elim h [ ]
count_false-set (true ∷ bs) zero h g = cc
count_false-set (false ∷ bs) zero h g = refl
count_false-set (true ∷ bs) (suc i) h g = count_false-set bs i (omega arith) g
count_false-set (false ∷ bs) (suc i) h g = ap suc (count_false-set bs i (omega arith) g)

count_false-replicate : (n : ℕ) → count_false (replicate n false) ≡ n
unfolding replicate
count_false-replicate zero = refl
count_false-replicate (suc n) = ap suc (count_false-replicate n)

count_false_le : (bs : List Bool) → count_false bs ≤ length bs
count_false_le [] = omega arith
count_false_le (true ∷ bs) = omega (arith, count_false_le bs)
count_false_le (false ∷ bs) = omega (arith, count_false_le bs)

keep_word-IsCounted :
    (b : Bool) (offset value : ℕ) (r : DevReg)
    → IsCounted r
    → IsCounted (keep_word b offset value r)
unfolding keep_word
keep_word-IsCounted false offset value r h = h
keep_word-IsCounted true offset value r h = record {
  counted = h.counted;
  rx_length = length-set r.mem_rx offset value ∙ h.rx_length;
  tx_length = h.tx_length;
  bounded = h.bounded;
}

flag_word-IsCounted :
    (offset : ℕ) (r : DevReg)
    → offset < length r.received
    → IsCounted r
    → IsCounted (flag_word offset r)
unfolding flag_word
flag_word-IsCounted offset r h k = elim (Bool-cases (get_or r.received offset false)) [
  | inl e ↦ rw e k
  | inr e ↦ rw e (record {
    counted = omega (
      arith,
      count_false-set r.received offset h e,
      count_false_le r.received,
      k.counted,
      k.bounded,
    );
    rx_length = k.rx_length ∙ sym (length-set r.received offset true);
    tx_length = k.tx_length ∙ sym (length-set r.received offset true);
    bounded = subst (λ n. n < 2 ^ 32) (sym (length-set r.received offset true)) k.bounded;
  })
]

length-keep_word :
    (b : Bool) (offset value : ℕ) (r : DevReg)
    → length (keep_word b offset value r).received ≡ length r.received
unfolding keep_word
length-keep_word false offset value r = refl
length-keep_word true offset value r = refl

recount :
    (r r' : DevReg)
    → r'.nremaining ≡ r.nremaining
    → r'.received ≡ r.received
    → r'.mem_rx ≡ r.mem_rx
    → r'.mem_tx ≡ r.mem_tx
    → IsCounted r
    → IsCounted r'
recount r r' en er ex et h = record {
  counted = rw (en, er) h.counted;
  rx_length = rw (ex, er) h.rx_length;
  tx_length = rw (et, er) h.tx_length;
  bounded = rw er h.bounded;
}

module _ (p : ℕ) where
  -- Register p is there and counted.
  abbrev pub Counted : Device → Type 0
  Counted d = (p < length d.regs) × IsCounted (reg_at d p)

  -- A call that returns has kept this, and one that throws has not failed an assertion.
  unfoldable pub Safe : Outcome → Type 0
  Safe (done d) = Counted d
  Safe (throws e d) = is_exception e ≡ true

  done-Safe : (d : Device) → Counted d → Safe (done d)
  unfolding Safe
  done-Safe d h = h

  if-Safe :
      (b : Bool) (x y : Outcome)
      → (b ≡ true → Safe x)
      → (b ≡ false → Safe y)
      → Safe (if b then x else y)
  if-Safe true x y f g = f refl
  if-Safe false x y f g = g refl

  throws-Safe : (e : Exn) (d : Device) → is_exception e ≡ true → Safe (throws e d)
  unfolding Safe
  throws-Safe e d h = h

  set_reg-Counted :
      (d : Device) (r : DevReg) → p < length d.regs → IsCounted r → Counted (set_reg d p r)
  set_reg-Counted d r h k = (
    subst (λ n. p < n) (sym (length-set_reg d p r)) h,
    subst IsCounted (sym (reg_at-set_reg_self d p r h)) k,
  )

  same_regs-Counted : (d d' : Device) → d'.regs ≡ d.regs → Counted d → Counted d'
  unfolding reg_at
  same_regs-Counted d d' e h =
      subst (λ rs. (p < length rs) × IsCounted (get_or rs p no_reg)) (sym e) h

  scan_all_regs : (q : ℕ) (is : List ℕ) (d : Device) → (scan_all q is d).regs ≡ d.regs
  unfolding scan_all scan_one
  scan_all_regs q [] d = refl
  scan_all_regs q (i ∷ is) d = scan_all_regs q is (scan_one q i d)

  scan_interested-Counted : (d : Device) → Counted d → Counted (scan_interested p d)
  unfolding scan_interested
  scan_interested-Counted d h = same_regs-Counted d _ (scan_all_regs p (reg_at d p).interested d) h

  process-Counted : (cancel : Bool) (d : Device) → Counted d → Counted (process p cancel d)
  unfolding process
  process-Counted cancel d h =
      set_reg-Counted _ _ h.0 (recount (reg_at d p) _ refl refl refl refl h.1)

  queue_idle-Safe :
      (write : Bool) (action : Option ℕ) (d : Device)
      → Counted d
      → Safe (queue_idle p write action d)
  unfolding queue_idle
  queue_idle-Safe write action d h =
      let n = length (reg_at d p).received in
      let r = reg_at d p in
      if-Safe ((not write && not r.info.readable) || (write && not r.info.writable)) _ _
        (λ e. throws-Safe _ d refl)
        (λ e. done-Safe _ (
          set_reg-Counted _ _ h.0 (record {
            counted = sym (count_false-replicate n);
            rx_length = h.1.rx_length ∙ sym (length-replicate n false);
            tx_length = h.1.tx_length ∙ sym (length-replicate n false);
            bounded = subst (λ m. m < 2 ^ 32) (sym (length-replicate n false)) h.1.bounded;
          })))

  queue_in-Safe :
      (s : RegState) (write : Bool) (action : Option ℕ) (d : Device)
      → Counted d
      → Safe (queue_in s p write action d)
  unfolding queue_in flag_write flag_read join_read
  queue_in-Safe invalid write action d h = queue_idle-Safe write action d h
  queue_in-Safe in_sync write action d h = queue_idle-Safe write action d h
  queue_in-Safe writing true action d h =
      done-Safe _ (set_reg-Counted d _ h.0 (recount (reg_at d p) _ refl refl refl refl h.1))
  queue_in-Safe writing false action d h =
      done-Safe _ (set_reg-Counted d _ h.0 (recount (reg_at d p) _ refl refl refl refl h.1))
  queue_in-Safe reading true action d h =
      done-Safe _ (set_reg-Counted d _ h.0 (recount (reg_at d p) _ refl refl refl refl h.1))
  queue_in-Safe reading false action d h =
      done-Safe _ (set_reg-Counted d _ h.0 (recount (reg_at d p) _ refl refl refl refl h.1))

  -- A call of `queue` for a counted register leaves it counted when it returns, all its words missing
  -- where it starts the operation, and throws nothing but a std::exception.
  pub queue-Safe :
      (write : Bool) (action : Option ℕ) (d : Device) → Counted d → Safe (queue p write action d)
  unfolding queue
  queue-Safe write action d h = queue_in-Safe (reg_at d p).state write action d h

  start_queued-Safe : (d : Device) → Counted d → Safe (start_queued p d)
  unfolding start_queued
  start_queued-Safe d h =
      if-Safe (reg_at d p).write_queued _ _
        (λ e.
          queue-Safe true none _
            (set_reg-Counted d _ h.0 (recount (reg_at d p) _ refl refl refl refl h.1)))
        (λ e.
          if-Safe (reg_at d p).read_queued _ _
            (λ f.
              queue-Safe false none _
                (set_reg-Counted d _ h.0 (recount (reg_at d p) _ refl refl refl refl h.1)))
            (λ f. done-Safe d h))

  complete_reg-Safe :
      (d : Device) → Counted d → (reg_at d p).nremaining ≡ 0 → Safe (complete_reg p d)
  unfolding complete_reg
  complete_reg-Safe d h z =
      let all = all_true-count_false (reg_at d p).received (sym h.1.counted ∙ z) in
      let r = set_reg-Counted d _ h.0 (recount (reg_at d p) _ refl refl refl refl h.1) in
      rw all (start_queued-Safe _ (scan_interested-Counted _ (process-Counted false _ r)))

  -- One answered word for a counted register, at any offset and with any value: the register is
  -- counted afterwards, completed or not, and the assertion on completion does not fail, so a throw is
  -- a std::exception: an offset outside the register, or an unsupported operation in the queue.
  pub store_word-Safe :
      (cmd_addr value : ℕ) (d : Device) → Counted d → Safe (store_word p cmd_addr value d)
  unfolding store_word
  store_word-Safe cmd_addr value d h =
      let r = reg_at d p in
      let offset = reply_offset cmd_addr r.info.base_addr in
      let is_read = is_read_reply cmd_addr in
      let stored = keep_word is_read offset value r in
      let flagged = flag_word offset stored in
      if-Safe (is_read && leb (length r.mem_rx) offset) _ _ (λ e. throws-Safe _ _ refl)
        (λ e.
          if-Safe (leb (length r.received) offset) _ _ (λ f. throws-Safe _ _ refl)
            (λ f.
              let kept = keep_word-IsCounted is_read offset value r h.1 in
              let inside =
                subst (λ n. offset < n) (sym (length-keep_word is_read offset value r))
                  (ground arith) in
              let next =
                set_reg-Counted d flagged h.0 (flag_word-IsCounted offset stored inside kept) in
              if-Safe (flagged.nremaining == 0) _ _
                (λ z.
                  complete_reg-Safe _ next (
                    ap (λ t. t.nremaining) (reg_at-set_reg_self d p flagged h.0)
                    ∙ (==_iff _ 0).0 z))
                (λ z. done-Safe _ next)))
