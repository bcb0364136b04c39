-- ===== src/Device/Replay.antt =====
-- A datagram that arrives twice at Device::handle_process.
use feed_core.Prelude.{
  ℕ, ◌/◌, ◌^◌, ◌<◌, ◌≡◌, refl, sym, ap, ◌∙◌, subst, Bool, true, false, not, ◌||◌, arith, length,
  get_or, leb, ltb, ◌==◌, Bytes, Bool-cases, inl, inr,
}
use feed_core.Prelude.Words.{be_words}
use feed_core.Device.Types.{
  Device, is_sent, nreg, Outcome, done, throws, ◌>>>◌, msg_at, cleared_msg,
}
use feed_core.Device.Receive.{process_slots, ignore, finish_msg, handle_process}
use feed_core.Device.Store.{msg_at-set_msg_self}
use feed_core.Device.Waiting.{done_injective}
use feed_core.Device.Messages.{process_slots-Messages, Messages-done}

-- The four tests in front of the slots.
abbrev refused : Bytes → Device → Bool
refused buf d =
    let words = be_words buf in
    let seq = get_or words 1 0 in
    let off = seq / 2 ^ 24 in
    ltb (length buf) 32
    || ((not (get_or words 0 0 == 0xfeedc0de) || leb (length d.inflight) off)
        || (not (is_sent (msg_at d off).state) || not ((msg_at d off).seq == seq)))

handle_process-refused :
    (t : ℕ) (buf : Bytes) (d : Device)
    → refused buf d ≡ true
    → handle_process t buf d ≡ done (ignore d)
unfolding handle_process
handle_process-refused t buf d h = ground arith

handle_process-accepted :
    (t : ℕ) (buf : Bytes) (d : Device)
    → refused buf d ≡ false
    → handle_process t buf d ≡ (
        process_slots nreg (get_or (be_words buf) 1 0 / 2 ^ 24) 0 (be_words buf) d >>> λ d'.
        done (finish_msg t (get_or (be_words buf) 1 0 / 2 ^ 24) d'))
unfolding handle_process
handle_process-accepted t buf d h = ground arith

refused-ignore : (buf : Bytes) (d : Device) → refused buf (ignore d) ≡ refused buf d
unfolding ignore msg_at
refused-ignore buf d = refl

refused_free :
    (buf : Bytes) (d : Device)
    → is_sent (msg_at d (get_or (be_words buf) 1 0 / 2 ^ 24)).state ≡ false
    → refused buf d ≡ true
refused_free buf d h = ground arith

in_range :
    (buf : Bytes) (d : Device)
    → refused buf d ≡ false
    → get_or (be_words buf) 1 0 / 2 ^ 24 < length d.inflight
in_range buf d h = ground arith

finished_free :
    (t i : ℕ) (d : Device)
    → i < length d.inflight
    → is_sent (msg_at (finish_msg t i d) i).state ≡ false
unfolding finish_msg cleared_msg
finished_free t i d h =
    ap (λ m. is_sent m.state)
      (msg_at-set_msg_self (record d { roundtriptimes = _; rtt_ptr = _ }) i
        (cleared_msg (msg_at d i)) h)

-- Both calls of a chain whose second part only changes the device.
chain_done :
    (o : Outcome) (f : Device → Device) (d' : Device)
    → (o >>> λ d. done (f d)) ≡ done d'
    → (d : Device) × (o ≡ done d) × (f d ≡ d')
chain_done (done d) f d' h = (d, refl, cc)
chain_done (throws e d) f d' h = cc

-- When a call of handle_process returns, whatever the datagram, a second call with the same datagram
-- ignores it and only counts that: no word is stored twice and no register is touched again.
pub handle_process-Replay :
    (feed_timeout : ℕ) (buf : Bytes) (d d' : Device)
    → handle_process feed_timeout buf d ≡ done d'
    → handle_process feed_timeout buf d' ≡ done (ignore d')
handle_process-Replay t buf d d' h = elim (Bool-cases (refused buf d)) [
  | inl r ↦
      let once : ignore d ≡ d' = done_injective (sym (handle_process-refused t buf d r) ∙ h) in
      handle_process-refused t buf d'
        (subst (λ x. refused buf x ≡ true) once (refused-ignore buf d ∙ r))
  | inr a ↦
      let off : ℕ = get_or (be_words buf) 1 0 / 2 ^ 24 in
      let c =
        chain_done (process_slots nreg off 0 (be_words buf) d) (finish_msg t off) d'
          (sym (handle_process-accepted t buf d a) ∙ h) in
      let many =
        Messages-done (length d.inflight) _ c.0
          (process_slots-Messages (length d.inflight) nreg off 0 (be_words buf) d refl) c.1 in
      let free = finished_free t off c.0 (subst (λ k. off < k) (sym many) (in_range buf d a)) in
      handle_process-refused t buf d'
        (refused_free buf d' (subst (λ x. is_sent (msg_at x off).state ≡ false) c.2 free))
]
