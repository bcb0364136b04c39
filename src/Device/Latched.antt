-- ===== src/Device/Latched.antt =====
-- What handle_state and the handler of Device::run make of the state machine.
use feed_core.Prelude.{
  ℕ, ◌≡◌, refl, sym, Bool, true, false, ◌||◌, ◌&&◌, List, [], ◌∷◌, Option, none, arith,
  if◌then◌else◌, Bytes, subst,
}
use feed_core.Device.Types.{
  DevState, error, idle, searching, inspecting, running, Device, Outcome, done, throws, ◌>>>◌,
  reg_at, reg_id, reg_rom2, reg_rom16, RegState, in_sync, invalid, reading, writing, set_reg,
}
use feed_core.Device.Register.{
  process, queue, queue_in, queue_idle, flag_write, flag_read, join_read,
}
use feed_core.Device.Reset.{reset, start_state, disconnect, disconnect_all}
use feed_core.Device.Worker.{advance, handle_state, is_in_sync}

-- The transitions of the state machine, with what they need.
pub data Step (d : Device) : DevState → DevState → Type 0 where
  stay : (s : DevState) → Step d s s
  named : (c : ℕ) (cs : Bytes) → d.peer_name ≡ c ∷ cs → Step d idle searching
  found : (reg_at d reg_id).state ≡ in_sync → Step d searching inspecting
  loaded :
      (reg_at d reg_rom2).state ≡ in_sync
      → (reg_at d reg_rom16).state ≡ in_sync
      → Step d inspecting running
  restarted : (s : DevState) → d.reset_requested ≡ true → Step d s (start_state false d.peer_name)
  faulted : (s : DevState) → d.error_requested ≡ true → Step d s error

is_in_sync-eq : (s : RegState) → is_in_sync s ≡ true → s ≡ in_sync
is_in_sync-eq RegState.in_sync h = refl
is_in_sync-eq RegState.invalid h = cc
is_in_sync-eq RegState.reading h = cc
is_in_sync-eq RegState.writing h = cc

-- The state that a call leaves, when it returns.
unfoldable pub Ends : (DevState → Type 0) → Outcome → Type 0
Ends P (done d) = P d.current
Ends P (throws e d) = Unit

queue_in-Ends :
    (s : RegState) (p : ℕ) (write : Bool) (action : Option ℕ) (d : Device) (P : DevState → Type 0)
    → P d.current
    → Ends P (queue_in s p write action d)
unfolding Ends queue_in queue_idle flag_write flag_read join_read set_reg
queue_in-Ends invalid p write action d P h = ground arith
queue_in-Ends in_sync p write action d P h = ground arith
queue_in-Ends writing p true action d P h = h
queue_in-Ends writing p false action d P h = h
queue_in-Ends reading p true action d P h = h
queue_in-Ends reading p false action d P h = h

queue-Ends :
    (p : ℕ) (write : Bool) (action : Option ℕ) (d : Device) (P : DevState → Type 0)
    → P d.current
    → Ends P (queue p write action d)
unfolding queue
queue-Ends p write action d P h = queue_in-Ends (reg_at d p).state p write action d P h

>>>-Ends :
    (P : DevState → Type 0) (o : Outcome) (f : Device → Outcome)
    → ((d : Device) → Ends P (f d))
    → Ends P (o >>> f)
unfolding Ends
>>>-Ends P (done d) f h = h d
>>>-Ends P (throws e d) f h = tt

disconnect_all-current :
    (m : List (Bytes × ℕ)) (d : Device) → (disconnect_all m d).current ≡ d.current
unfolding disconnect_all disconnect process set_reg
disconnect_all-current [] d = refl
disconnect_all-current ((k, p) ∷ m) d = disconnect_all-current m (disconnect p d)

reset-current :
    (failed : Bool) (d : Device) → (reset failed d).current ≡ start_state failed d.peer_name
unfolding reset
reset-current failed d = disconnect_all-current d.reg_by_name _

if-Ends :
    (P : DevState → Type 0) (b : Bool) (x y : Outcome)
    → (b ≡ true → Ends P x)
    → (b ≡ false → Ends P y)
    → Ends P (if b then x else y)
if-Ends P true x y f g = f refl
if-Ends P false x y f g = g refl

both : (a b : Bool) → (a && b) ≡ true → (a ≡ true) × (b ≡ true)
both true true h = (refl, refl)
both true false h = cc
both false b h = cc

done-Ends : (P : DevState → Type 0) (d : Device) → P d.current → Ends P (done d)
unfolding Ends
done-Ends P d h = h

module _ (inspect : Device → Outcome) where
  current-Ends : (s : DevState) (d : Device) → d.current ≡ s → Ends (Step d s) (done d)
  current-Ends s d e = done-Ends (Step d s) d (subst (λ t. Step d s t) (sym e) (stay s))

  named-Ends :
      (d0 d : Device)
      → d.current ≡ idle
      → (name : Bytes) → d0.peer_name ≡ name
      → Step d0 idle d.current
      → Ends
          (Step d0 idle)
          (elim name [ [] ↦ done d | c ∷ cs ↦ done (record d { current = searching }) ])
  named-Ends d0 d e [] n h = done-Ends (Step d0 idle) d h
  named-Ends d0 d e (c ∷ cs) n h = done-Ends (Step d0 idle) _ (named c cs n)

  advance-Ends : (s : DevState) (d : Device) → d.current ≡ s → Ends (Step d s) (advance inspect s d)
  unfolding advance
  advance-Ends error d e = current-Ends error d e
  advance-Ends idle d e =
      named-Ends d d e d.peer_name refl (subst (λ t. Step d idle t) (sym e) (stay idle))
  advance-Ends searching d e =
      if-Ends (Step d searching) _ _ _
        (λ h.
          >>>-Ends (Step d searching) _ _
            (λ d'. done-Ends (Step d searching) _ (found (is_in_sync-eq _ h))))
        (λ h.
          if-Ends (Step d searching) _ _ _
            (λ k.
              queue-Ends reg_id false none d (Step d searching)
                (subst (λ t. Step d searching t) (sym e) (stay searching)))
            (λ k. current-Ends searching d e))
  advance-Ends inspecting d e =
      if-Ends (Step d inspecting) _ _ _
        (λ h.
          let hs = both _ _ h in
          >>>-Ends (Step d inspecting) _ _ (λ d'.
            done-Ends (Step d inspecting) _ (loaded (is_in_sync-eq _ hs.0) (is_in_sync-eq _ hs.1))))
        (λ h. current-Ends inspecting d e)
  advance-Ends running d e = current-Ends running d e

  restart-Ends :
      (d : Device) (reset_requested failed : Bool)
      → d.reset_requested ≡ reset_requested
      → d.error_requested ≡ failed
      → (reset_requested || failed) ≡ true
      → Step d d.current (reset failed d).current
  restart-Ends d r true hr hf h =
      subst (λ t. Step d d.current t) (sym (reset-current true d)) (faulted d.current hf)
  restart-Ends d true false hr hf h =
      subst (λ t. Step d d.current t) (sym (reset-current false d)) (restarted d.current hr)
  restart-Ends d false false hr hf h = cc

  notify-Ends :
      (P : DevState → Type 0) (o : Outcome) (f : Device → Device)
      → ((d : Device) → (f d).current ≡ d.current)
      → Ends P o
      → Ends P (o >>> λ d. done (f d))
  unfolding Ends
  notify-Ends P (done d) f e h = subst P (sym (e d)) h
  notify-Ends P (throws x d) f e h = tt

  -- Whatever the inspection of the ROM does, a call of `handle_state` that returns has made one
  -- transition of the state machine: each state is left only for its successor, and only when the
  -- registers that this needs are in sync, or through a requested reset or error.
  pub handle_state-Step : (d : Device) → Ends (Step d d.current) (handle_state inspect d)
  unfolding handle_state
  handle_state-Step d =
      if-Ends (Step d d.current) _ _ _
        (λ h.
          done-Ends (Step d d.current) _
            (restart-Ends d d.reset_requested d.error_requested refl refl h))
        (λ h.
          notify-Ends (Step d d.current) _ _ (λ d'. ground arith) (advance-Ends d.current d refl))
