-- ===== src/Device/Sending.antt =====
-- Device::handle_send: the messages that it sends, and the packets that it adds.
use feed_core.Prelude.{
  append_assoc, append-nil, set-set, ℕ, zero, suc, ◌+◌, ◌/◌, ◌^◌, if-elim, ◌<◌, ◌≡◌, refl, sym, ap,
  ◌∙◌, true, List, [], ◌∷◌, ◌++◌, arith, length, length-set, get_or, set, All, All-append, set-All,
}
use feed_core.Device.Types.{DevMsg, sent, is_sent, is_ready, Device, msg_at, set_msg, Outcome}
use feed_core.Device.Send.{
  SendResult, delivered, would_block, unreachable, failed, fill_msgs, sealed, send_msgs,
  handle_send,
}
use feed_core.Device.Store.{msg_at-set_msg_ne, msg_at-set_msg_self}
use feed_core.Device.Filling.{
  IsCarried, later, set_msg-IsFitted, same_messages, Fits, IsFitted, done-Fits, throws-Fits,
  >>>-Fits, msg_at-IsFitting, IsCarried-on, fill_msgs-Fits,
}
use feed_core.Device.Packets.{IsFitting, IsPacket, sealed-IsPacket, sealed-number}

module _ (n : ℕ) (before : List (List ℕ)) where
  result-Fits :
      (r : SendResult) (a b c : Outcome) (f : ℕ → Outcome)
      → Fits n before n a
      → Fits n before n b
      → Fits n before n c
      → ((code : ℕ) → Fits n before n (f code))
      → Fits n before n
          (elim r [ delivered ↦ a | would_block ↦ b | unreachable ↦ c | failed code ↦ f code ])
  result-Fits delivered a b c f ha hb hc hf = ha
  result-Fits would_block a b c f ha hb hc hf = hb
  result-Fits unreachable a b c f ha hb hc hf = hc
  result-Fits (failed code) a b c f ha hb hc hf = hf code

  -- Message i with its new contents, from a device that sent the messages below i.
  placed :
      (i : ℕ) (d d' : Device) (m : DevMsg)
      → IsFitted n before i d
      → d'.inflight ≡ set d.inflight i m
      → d'.packets ≡ d.packets
      → IsFitting m
      → IsFitted n before i d'
  unfolding set_msg
  placed i d d' m h ei ep f =
      same_messages n before i (set_msg d i m) d'
        (set_msg-IsFitted n before i d i m (omega arith) h f) ei ep

  msg_at_placed :
      (i k : ℕ) (d d' : Device) (m : DevMsg)
      → d'.inflight ≡ set d.inflight i m
      → msg_at d' k ≡ msg_at (set_msg d i m) k
  unfolding msg_at set_msg
  msg_at_placed i k d d' m e = rw e refl

  -- The packet of message i, when it has been sent.
  delivered_one :
      (i : ℕ) (d d' : Device) (m : DevMsg)
      → IsFitted n before i d
      → i < n
      → d'.inflight ≡ set d.inflight i m
      → d'.packets ≡ d.packets ++ m.buf ∷ []
      → is_sent m.state ≡ true
      → (get_or m.buf 1 0 ≡ m.seq) × (m.seq / 2 ^ 24 ≡ i)
      → IsPacket n m.buf
      → IsFitted n before (i + 1) d'
  delivered_one i d d' m h l ei ep gone number packet =
      let here : msg_at d' i ≡ m =
        msg_at_placed i i d d' m ei ∙ msg_at-set_msg_self d i m (omega (arith, h.many)) in
      record {
        many = ap length ei ∙ (length-set d.inflight i m ∙ h.many);
        fitting = rw ei (set-All IsFitting d.inflight i m packet.short h.fitting);
        added = h.added ++ m.buf ∷ [];
        packets =
            ep ∙ (ap (λ t. t ++ m.buf ∷ []) h.packets ∙ append_assoc before h.added (m.buf ∷ []));
        carried =
            All-append (IsCarried n (i + 1) d') h.added (m.buf ∷ [])
              (IsCarried-on n before i (i + 1) d d' h.added (omega arith)
                (λ k u.
                  msg_at_placed i k d d' m ei ∙ msg_at-set_msg_ne d i k m (λ e. omega (arith, e)))
                h.carried)
              (
                record {
                  number = i;
                  below = omega arith;
                  sent_state = rw here gone;
                  same_words = ap (λ x. x.buf) here;
                  same_seq = number.0 ∙ sym (ap (λ x. x.seq) here);
                  numbered = ap (λ x. x / 2 ^ 24) number.0 ∙ number.1;
                  well_formed = packet;
                },
                tt,
              );
      }

  module _ (feed_timeout : ℕ) (net : ℕ → SendResult) where
    send_msgs-Fits :
        (k i : ℕ) (d : Device)
        → i + k ≡ n
        → IsFitted n before i d
        → Fits n before n (send_msgs feed_timeout net k i d)
    unfolding send_msgs set_msg
    send_msgs-Fits zero i d h f = done-Fits n before n d (later n before i n d (omega arith) f)
    send_msgs-Fits (suc k) i d h f =
        let m = sealed i d.send_seq (msg_at d i) in
        let number = sealed-number i d.send_seq (msg_at d i) in
        let packet =
          sealed-IsPacket n i d.send_seq (msg_at d i) (omega arith)
            (msg_at-IsFitting n before i d i f) in
        let skip = λ (d' : Device). later n before i (i + 1) d' (omega arith) in
        let kept = λ (d' : Device). later n before i n d' (omega arith) in
        if-elim (Fits n before n) (is_ready (msg_at d i).state) _ _
          (result-Fits (net i) _ _ _ _
            (send_msgs-Fits k (i + 1) _ (omega arith) (
              delivered_one i d _ (record m { state = sent; due = d.loop_time + feed_timeout }) f
                (omega arith) (set-set d.inflight i m _) refl refl number packet))
            (done-Fits n before n _ (kept _ (placed i d _ m f refl refl packet.short)))
            (send_msgs-Fits k (i + 1) _ (omega arith) (
              skip _ (
                placed i d _ (record m { state = sent; due = d.loop_time + feed_timeout }) f
                  (set-set d.inflight i m _) refl packet.short)))
            (λ code. throws-Fits n before n _ _ (kept _ (placed i d _ m f refl refl packet.short))))
          (send_msgs-Fits k (i + 1) d (omega arith) (skip d f))

    -- From a device whose messages are within the packet size limit, a call of handle_send, whatever the
    -- socket answers and whether it returns or throws, keeps the number of the messages, keeps every
    -- message within that limit, and only adds packets. Each packet that it adds is the content of one
    -- of its messages, which is then sent; it is at least 32 bytes long and within the limit, starts
    -- with the magic word, and its second word is the sequence word of this message, with the number of
    -- the message in the top byte.
    pub handle_send-Fits :
        (d : Device)
        → length d.inflight ≡ n
        → All IsFitting d.inflight
        → d.packets ≡ before
        → Fits n before n (handle_send feed_timeout net d)
    unfolding handle_send
    handle_send-Fits d many fitting at =
        let start : IsFitted n before 0 d = record {
          many = many;
          fitting = fitting;
          added = [];
          packets = at ∙ sym (append-nil before);
          carried = tt;
        } in
        >>>-Fits n before 0 n (fill_msgs (length d.inflight) 0 d) _ (omega arith)
          (fill_msgs-Fits n before (length d.inflight) 0 d start)
          (λ d' g. send_msgs-Fits (length d'.inflight) 0 d' (omega (arith, g.many)) g)
