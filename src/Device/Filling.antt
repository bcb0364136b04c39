-- ===== src/Device/Filling.antt =====
-- Device::handle_send: the sizes of the messages that it fills, and the packets that it leaves.
use feed_core.Prelude.{
  ℕ, zero, suc, ◌+◌, ◌*◌, ◌/◌, ◌^◌, if-elim, ◌<◌, ◌≤◌, ◌≡◌, refl, ◌∙◌, true, not, List, [], ◌∷◌,
  ◌++◌, none, arith, length, length-set, get_or, set, All, set-All, get_or-All, ltb, if◌then◌else◌,
  Bool-cases, inl, inr,
}
use feed_core.Prelude.Exn.{Exn}
use feed_core.Device.Types.{
  DevReg, DevMsg, is_sent, inprogress, Device, reg_at, set_reg, msg_at, set_msg, no_msg, nreg,
  Outcome, done, throws, ◌>>>◌,
}
use feed_core.Device.Send.{resize, is_some, is_empty, fill_slot, fill_slots, mark_ready, fill_msgs}
use feed_core.Device.Store.{msg_at-set_msg_ne}
use feed_core.Device.Packets.{IsFitting, IsPacket, length-resize}

-- A packet of a message below j: the message is sent and has these words in its buffer, and their
-- sequence word, which the message has too, has its number in the top byte.
pub record IsCarried (n j : ℕ) (d : Device) (words : List ℕ) : Type 0 where
  pub number : ℕ
  pub below : number < j
  pub sent_state : is_sent (msg_at d number).state ≡ true
  pub same_words : (msg_at d number).buf ≡ words
  pub same_seq : get_or words 1 0 ≡ (msg_at d number).seq
  pub numbered : get_or words 1 0 / 2 ^ 24 ≡ number
  pub well_formed : IsPacket n words

module _ (n : ℕ) (before : List (List ℕ)) where
  -- n messages, all of them within the limit, and behind the packets `before` only packets of messages
  -- below j.
  pub record IsFitted (j : ℕ) (d : Device) : Type 0 where
    pub many : length d.inflight ≡ n
    pub fitting : All IsFitting d.inflight
    pub added : List (List ℕ)
    pub packets : d.packets ≡ before ++ added
    pub carried : All (IsCarried n j d) added

  -- This at the end of a call, which returns or throws.
  unfoldable pub Fits : ℕ → Outcome → Type 0
  Fits j (done d) = IsFitted j d
  Fits j (throws e d) = IsFitted j d

  pub IsCarried-on :
      (i j : ℕ) (d d' : Device) (packets : List (List ℕ))
      → i ≤ j
      → ((k : ℕ) → k < i → msg_at d' k ≡ msg_at d k)
      → All (IsCarried n i d) packets
      → All (IsCarried n j d') packets
  IsCarried-on i j d d' [] l same h = tt
  IsCarried-on i j d d' (p ∷ ps) l same h =
      let c = h.0 in
      let e = same c.number c.below in
      (
        record {
          number = c.number;
          below = omega (arith, c.below);
          sent_state = rw e c.sent_state;
          same_words = rw e c.same_words;
          same_seq = rw e c.same_seq;
          numbered = c.numbered;
          well_formed = c.well_formed;
        },
        IsCarried-on i j d d' ps l same h.1,
      )

  pub later : (i j : ℕ) (d : Device) → i ≤ j → IsFitted i d → IsFitted j d
  later i j d l h = record {
    many = h.many;
    fitting = h.fitting;
    added = h.added;
    packets = h.packets;
    carried = IsCarried-on i j d d h.added l (λ k u. refl) h.carried;
  }

  pub set_msg-IsFitted :
      (j : ℕ) (d : Device) (i : ℕ) (m : DevMsg)
      → j ≤ i
      → IsFitted j d
      → IsFitting m
      → IsFitted j (set_msg d i m)
  unfolding set_msg
  set_msg-IsFitted j d i m l h f = record {
    many = length-set d.inflight i m ∙ h.many;
    fitting = set-All IsFitting d.inflight i m f h.fitting;
    added = h.added;
    packets = h.packets;
    carried =
        IsCarried-on j j d (set_msg d i m) h.added (omega arith)
          (λ k u. msg_at-set_msg_ne d i k m (λ e. omega (arith, e))) h.carried;
  }

  pub done-Fits : (j : ℕ) (d : Device) → IsFitted j d → Fits j (done d)
  unfolding Fits
  done-Fits j d h = h

  pub throws-Fits : (j : ℕ) (e : Exn) (d : Device) → IsFitted j d → Fits j (throws e d)
  unfolding Fits
  throws-Fits j e d h = h

  pub >>>-Fits :
      (i j : ℕ) (o : Outcome) (f : Device → Outcome)
      → i ≤ j
      → Fits i o
      → ((d : Device) → IsFitted i d → Fits j (f d))
      → Fits j (o >>> f)
  unfolding Fits
  >>>-Fits i j (done d) f l h k = k d h
  >>>-Fits i j (throws e d) f l h k = later i j d l h

  -- A change of the device that leaves the messages and the packets.
  pub same_messages :
      (j : ℕ) (d d' : Device)
      → IsFitted j d
      → d'.inflight ≡ d.inflight
      → d'.packets ≡ d.packets
      → IsFitted j d'
  same_messages j d d' h ei ep = record {
    many = rw ei h.many;
    fitting = rw ei h.fitting;
    added = h.added;
    packets = ep ∙ h.packets;
    carried =
        IsCarried-on j j d d' h.added (omega arith) (λ k u. unfold msg_at in rw ei refl) h.carried;
  }

  set_reg-IsFitted :
      (j : ℕ) (d : Device) (p : ℕ) (r : DevReg) → IsFitted j d → IsFitted j (set_reg d p r)
  set_reg-IsFitted j d p r h =
      same_messages j d (set_reg d p r) h (unfold set_reg in refl) (unfold set_reg in refl)

  pub set_msg_packets : (d : Device) (i : ℕ) (m : DevMsg) → (set_msg d i m).packets ≡ d.packets
  unfolding set_msg
  set_msg_packets d i m = refl

  pub msg_at-IsFitting : (j : ℕ) (d : Device) (i : ℕ) → IsFitted j d → IsFitting (msg_at d i)
  unfolding msg_at no_msg
  msg_at-IsFitting j d i h = get_or-All IsFitting d.inflight i no_msg (omega arith) h.fitting

  fill_slot-Fits : (i j p : ℕ) (d : Device) → j < nreg → IsFitted 0 d → Fits 0 (fill_slot i j p d)
  unfolding fill_slot
  fill_slot-Fits i j p d h f =
      let r = reg_at d p in
      let buf = resize (2 * j + 4) (msg_at d i).buf in
      if-elim (Fits 0) (not (inprogress r.state)) _ _ (throws-Fits 0 _ _ f) (
        if-elim (Fits 0) (not (ltb r.next_send (length r.mem_tx))) _ _ (throws-Fits 0 _ _ f) (
          done-Fits 0 _ (
            set_msg-IsFitted 0 _ i _ (omega arith)
              (set_reg-IsFitted 0 _ p _ (same_messages 0 d _ f refl refl))
              (omega (
                arith,
                length-set (set buf (2 * j + 2) _) (2 * j + 3) _,
                length-set buf (2 * j + 2) _,
                length-resize (2 * j + 4) (msg_at d i).buf,
              )))))

  front-Fits :
      (q : List ℕ) (x : Outcome) (f : ℕ → Outcome)
      → Fits 0 x
      → ((p : ℕ) → Fits 0 (f p))
      → Fits 0 (elim q [ [] ↦ x | p ∷ rest ↦ f p ])
  front-Fits [] x f h k = h
  front-Fits (p ∷ rest) x f h k = k p

  fill_slots-Fits :
      (k i j : ℕ) (d : Device) → j + k ≤ nreg → IsFitted 0 d → Fits 0 (fill_slots k i j d)
  unfolding fill_slots
  fill_slots-Fits zero i j d h f = done-Fits 0 d f
  fill_slots-Fits (suc k) i j d h f =
      front-Fits d.reg_send (done d)
        (λ p.
          (if is_some (get_or (msg_at d i).reg j none) then done d else fill_slot i j p d)
          >>> fill_slots k i (j + 1))
        (done-Fits 0 d f)
        (λ p.
          >>>-Fits 0 0 _ (fill_slots k i (j + 1)) (omega arith)
            (if-elim (Fits 0) (is_some (get_or (msg_at d i).reg j none)) _ _ (done-Fits 0 d f)
              (fill_slot-Fits i j p d (omega arith) f))
            (λ d' g. fill_slots-Fits k i (j + 1) d' (omega arith) g))

  mark_ready-IsFitted : (i : ℕ) (d : Device) → IsFitted 0 d → IsFitted 0 (mark_ready i d)
  unfolding mark_ready
  mark_ready-IsFitted i d f = elim (Bool-cases (is_some (get_or (msg_at d i).reg 0 none))) [
    | inl e ↦ rw e (set_msg-IsFitted 0 d i _ (omega arith) f (msg_at-IsFitting 0 d i f))
    | inr e ↦ rw e f
  ]

  pub fill_msgs-Fits : (k i : ℕ) (d : Device) → IsFitted 0 d → Fits 0 (fill_msgs k i d)
  unfolding fill_msgs
  fill_msgs-Fits zero i d f = done-Fits 0 d f
  fill_msgs-Fits (suc k) i d f =
      >>>-Fits 0 0 _ (fill_msgs k (i + 1)) (omega arith)
        (if-elim (Fits 0) (is_empty d.reg_send) _ _ (done-Fits 0 d f) (
          if-elim (Fits 0) (is_sent (msg_at d i).state) _ _ (done-Fits 0 d f) (
            >>>-Fits 0 0 (fill_slots nreg i 0 d) _ (omega arith)
              (fill_slots-Fits nreg i 0 d (omega arith) f)
              (λ d' g. done-Fits 0 _ (mark_ready-IsFitted i d' g)))))
        (λ d' g. fill_msgs-Fits k (i + 1) d' g)
