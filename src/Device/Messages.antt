-- ===== src/Device/Messages.antt =====
-- The number of messages, through the slots of a reply that Device::handle_process goes through.
use feed_core.Prelude.{
  ℕ, zero, suc, ◌+◌, ◌*◌, ◌≡◌, refl, ap, ◌∙◌, subst, Bool, true, false, not, ◌||◌, ◌&&◌, List, [],
  ◌∷◌, map, Option, none, some, arith, length, length-set, get_or, leb, ◌==◌, if◌then◌else◌,
}
use feed_core.Prelude.Exn.{Exn}
use feed_core.Device.Types.{
  RegState, invalid, in_sync, reading, writing, inprogress, DevReg, DevMsg, Device, nreg, Outcome,
  done, throws, ◌>>>◌, reg_at, set_reg, msg_at, set_msg,
}
use feed_core.Device.Register.{
  process, scan_interested, scan_all, scan_one, queue, queue_in, queue_idle, flag_write, flag_read,
  join_read,
}
use feed_core.Device.Timeout.{orphan, orphan_all, front_is, timeout_reg, timeout_slots, do_timeout}
use feed_core.Device.Receive.{
  without_status, start_queued, complete_reg, store_word, keep_word, flag_word, reply_offset,
  is_read_reply, all_true, free_slot, process_slot, process_slots,
}

length-map : {A : Type 0} (f : A → A) (xs : List A) → length (map f xs) ≡ length xs
length-map f [] = refl
length-map f (x ∷ xs) = ap suc (length-map f xs)

module _ (n : ℕ) where
  -- A call that returns leaves n messages.
  unfoldable pub Messages : Outcome → Type 0
  Messages (done d) = length d.inflight ≡ n
  Messages (throws e d) = Unit

  done-Messages : (d : Device) → length d.inflight ≡ n → Messages (done d)
  unfolding Messages
  done-Messages d h = h

  throws-Messages : (e : Exn) (d : Device) → Messages (throws e d)
  unfolding Messages
  throws-Messages e d = tt

  if-Messages : (b : Bool) (x y : Outcome) → Messages x → Messages y → Messages (if b then x else y)
  if-Messages true x y f g = f
  if-Messages false x y f g = g

  >>>-Messages :
      (o : Outcome) (f : Device → Outcome)
      → Messages o
      → ((d : Device) → length d.inflight ≡ n → Messages (f d))
      → Messages (o >>> f)
  unfolding Messages
  >>>-Messages (done d) f h k = k d h
  >>>-Messages (throws e d) f h k = tt

  queue_in-Messages :
      (s : RegState) (p : ℕ) (write : Bool) (action : Option ℕ) (d : Device)
      → length d.inflight ≡ n
      → Messages (queue_in s p write action d)
  unfolding queue_in queue_idle flag_write flag_read join_read set_reg Messages
  queue_in-Messages invalid p write action d h = ground arith
  queue_in-Messages in_sync p write action d h = ground arith
  queue_in-Messages writing p true action d h = h
  queue_in-Messages writing p false action d h = h
  queue_in-Messages reading p true action d h = h
  queue_in-Messages reading p false action d h = h

  queue-Messages :
      (p : ℕ) (write : Bool) (action : Option ℕ) (d : Device)
      → length d.inflight ≡ n
      → Messages (queue p write action d)
  unfolding queue
  queue-Messages p write action d h = queue_in-Messages (reg_at d p).state p write action d h

  scan_all-messages : (p : ℕ) (is : List ℕ) (d : Device) → (scan_all p is d).inflight ≡ d.inflight
  unfolding scan_all scan_one
  scan_all-messages p [] d = refl
  scan_all-messages p (i ∷ is) d = scan_all-messages p is (scan_one p i d)

  -- The end of an operation on a register, completed or given up.
  ended-messages :
      (p : ℕ) (cancel : Bool) (d : Device)
      → length d.inflight ≡ n
      → length (scan_interested p (process p cancel d)).inflight ≡ n
  unfolding scan_interested process set_reg
  ended-messages p cancel d h = rw (scan_all-messages p _ _) h

  set_reg-messages :
      (p : ℕ) (r : DevReg) (d : Device)
      → length d.inflight ≡ n
      → length (set_reg d p r).inflight ≡ n
  unfolding set_reg
  set_reg-messages p r d h = h

  start_queued-Messages : (p : ℕ) (d : Device) → length d.inflight ≡ n → Messages (start_queued p d)
  unfolding start_queued
  start_queued-Messages p d h =
      if-Messages (reg_at d p).write_queued _ _
        (queue-Messages p true none _ (set_reg-messages p _ d h))
        (if-Messages (reg_at d p).read_queued _ _
          (queue-Messages p false none _ (set_reg-messages p _ d h)) (done-Messages d h))

  complete_reg-Messages : (p : ℕ) (d : Device) → length d.inflight ≡ n → Messages (complete_reg p d)
  unfolding complete_reg
  complete_reg-Messages p d h =
      if-Messages (not (all_true (reg_at d p).received)) _ _ (throws-Messages _ d)
        (start_queued-Messages p _ (ended-messages p false _ (set_reg-messages p _ d h)))

  store_word-Messages :
      (p cmd value : ℕ) (d : Device) → length d.inflight ≡ n → Messages (store_word p cmd value d)
  unfolding store_word
  store_word-Messages p cmd value d h =
      let r = reg_at d p in
      let offset = reply_offset cmd r.info.base_addr in
      let flagged = flag_word offset (keep_word (is_read_reply cmd) offset value r) in
      if-Messages (is_read_reply cmd && leb (length r.mem_rx) offset) _ _ (throws-Messages _ _) (
        if-Messages (leb (length r.received) offset) _ _ (throws-Messages _ _) (
          if-Messages (flagged.nremaining == 0) _ _
            (complete_reg-Messages p _ (set_reg-messages p flagged d h))
            (done-Messages _ (set_reg-messages p flagged d h))))

  orphan_all-messages : (d : Device) → length d.inflight ≡ n → length (orphan_all d).inflight ≡ n
  unfolding orphan_all
  orphan_all-messages d h = length-map orphan d.inflight ∙ h

  timeout_reg-Messages : (p : ℕ) (d : Device) → length d.inflight ≡ n → Messages (timeout_reg p d)
  unfolding timeout_reg
  timeout_reg-Messages p d h =
      let front = front_is p (orphan_all d).reg_send in
      if-Messages (not (inprogress (reg_at d p).state)) _ _ (throws-Messages _ _) (
        if-Messages (not (front || leb (length (reg_at d p).mem_tx) (reg_at d p).next_send)) _ _
          (throws-Messages _ _)
          (done-Messages _
            (ended-messages p true _ (set_reg-messages p _ _ (orphan_all-messages d h)))))

  slot-Messages :
      (o : Option ℕ) (x : Outcome) (f : ℕ → Outcome)
      → Messages x
      → ((p : ℕ) → Messages (f p))
      → Messages (elim o [ none ↦ x | some p ↦ f p ])
  slot-Messages none x f h k = h
  slot-Messages (some p) x f h k = k p

  timeout_slots-Messages :
      (k i j : ℕ) (d : Device) → length d.inflight ≡ n → Messages (timeout_slots k i j d)
  unfolding timeout_slots
  timeout_slots-Messages zero i j d h = done-Messages d h
  timeout_slots-Messages (suc k) i j d h =
      >>>-Messages _ (timeout_slots k i (j + 1))
        (slot-Messages (get_or (msg_at d i).reg j none) (done d) (λ p. timeout_reg p d)
          (done-Messages d h) (λ p. timeout_reg-Messages p d h))
        (λ d' g. timeout_slots-Messages k i (j + 1) d' g)

  set_msg-messages :
      (i : ℕ) (m : DevMsg) (d : Device)
      → length d.inflight ≡ n
      → length (set_msg d i m).inflight ≡ n
  unfolding set_msg
  set_msg-messages i m d h = length-set d.inflight i m ∙ h

  do_timeout-Messages : (i : ℕ) (d : Device) → length d.inflight ≡ n → Messages (do_timeout i d)
  unfolding do_timeout
  do_timeout-Messages i d h =
      >>>-Messages _ _ (timeout_slots-Messages nreg i 0 _ h)
        (λ d' g. done-Messages _ (set_msg-messages i _ d' g))

  free_slot-messages :
      (i j : ℕ) (d : Device) → length d.inflight ≡ n → length (free_slot i j d).inflight ≡ n
  unfolding free_slot
  free_slot-messages i j d h = set_msg-messages i _ d h

  process_slot-Messages :
      (i j : ℕ) (words : List ℕ) (d : Device)
      → length d.inflight ≡ n
      → Messages (process_slot i j words d)
  unfolding process_slot
  process_slot-Messages i j words d h =
      slot-Messages (get_or (msg_at d i).reg j none) _ _ (done-Messages d h) (λ p.
        if-Messages (not (inprogress (reg_at d p).state)) _ _ (done-Messages d h) (
          if-Messages (leb (length words) (j * 2 + 3)) _ _ (do_timeout-Messages i d h) (
            if-Messages
              (without_status (get_or words (j * 2 + 2) 0) == get_or (msg_at d i).buf (j * 2 + 2) 0)
              _ _
              (>>>-Messages _ _
                (store_word-Messages p (get_or words (j * 2 + 2) 0) (get_or words (j * 2 + 3) 0) d
                  h)
                (λ d' g. done-Messages _ (free_slot-messages i j d' g)))
              (do_timeout-Messages i d h))))

  pub process_slots-Messages :
      (k i j : ℕ) (words : List ℕ) (d : Device)
      → length d.inflight ≡ n
      → Messages (process_slots k i j words d)
  unfolding process_slots
  process_slots-Messages zero i j words d h = done-Messages d h
  process_slots-Messages (suc k) i j words d h =
      >>>-Messages _ (process_slots k i (j + 1) words) (process_slot-Messages i j words d h)
        (λ d' g. process_slots-Messages k i (j + 1) words d' g)

pub Messages-done :
    (n : ℕ) (o : Outcome) (d : Device) → Messages n o → o ≡ done d → length d.inflight ≡ n
unfolding Messages
Messages-done n (done d0) d h e =
    let same : d0 ≡ d = cc in subst (λ t. length t.inflight ≡ n) same h
Messages-done n (throws x d0) d h e = cc
