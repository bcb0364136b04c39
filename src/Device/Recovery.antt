-- ===== src/Device/Recovery.antt =====
-- The handler around the loop body of Device::run.
use feed_core.Prelude.{
  ℕ, ◌≡◌, refl, sym, Bool, true, false, List, [], ◌∷◌, map, none, some, Bytes, All, subst,
  replicate,
}
use feed_core.Prelude.Words.{add32}
use feed_core.Prelude.Exn.{Exn}
use feed_core.Device.Types.{
  error, free, DevMsg, Device, Outcome, done, throws, cleared_msg, nreg, set_reg,
}
use feed_core.Device.Register.{process}
use feed_core.Device.Clean.{disconnect_all_keeps}
use feed_core.Device.Reset.{reset, disconnect, disconnect_all}
use feed_core.Device.Send.{SendResult}
use feed_core.Device.Inspect.{Records}
use feed_core.Device.Worker.{caught, recover, run_round, round_body, is_exception, Poll}

-- A message that is free: nothing in its slots and nothing in its buffer.
abbrev pub IsFree : DevMsg → Type 0
IsFree m = (m.state ≡ free) × (m.reg ≡ replicate nreg none) × (m.buf ≡ [])

-- No traffic is left: no register waits to be sent and every message is free.
abbrev pub IsQuiet : Device → Type 0
IsQuiet d = (d.reg_send ≡ []) × All IsFree d.inflight

cleared_IsFree : (ms : List DevMsg) → All IsFree (map cleared_msg ms)
unfolding cleared_msg
cleared_IsFree [] = tt
cleared_IsFree (m ∷ ms) = ((refl, refl, refl), cleared_IsFree ms)

-- What the disconnections in a reset leave alone.
record Same (d d' : Device) : Type 0 where
  pub same_send : d'.reg_send ≡ d.reg_send
  pub same_inflight : d'.inflight ≡ d.inflight
  pub same_err : d'.cnt_err ≡ d.cnt_err
  pub same_requests :
      (d'.reset_requested ≡ d.reset_requested) × (d'.error_requested ≡ d.error_requested)

disconnect-Same : (d0 : Device) (p : ℕ) (d : Device) → Same d0 d → Same d0 (disconnect p d)
unfolding disconnect process set_reg
disconnect-Same d0 p d h = record {
  same_send = h.same_send;
  same_inflight = h.same_inflight;
  same_err = h.same_err;
  same_requests = h.same_requests;
}

disconnect_all-Same : (m : List (Bytes × ℕ)) (d : Device) → Same d (disconnect_all m d)
disconnect_all-Same m d = disconnect_all_keeps (Same d) (disconnect-Same d) m d (record {
  same_send = refl;
  same_inflight = refl;
  same_err = refl;
  same_requests = (refl, refl);
})

reset-IsQuiet : (failed : Bool) (d : Device) → IsQuiet (reset failed d)
unfolding reset
reset-IsQuiet failed d =
    let h = disconnect_all-Same d.reg_by_name _ in
    (h.same_send, subst (All IsFree) (sym h.same_inflight) (cleared_IsFree d.inflight))

-- The device after an exception e in a round, against the device at the throw.
pub record Recovered (e : Exn) (d d' : Device) : Type 0 where
  pub in_error : d'.current ≡ error
  pub message : d'.last_message ≡ some e
  pub counted : d'.cnt_err ≡ add32 d.cnt_err 1
  pub quiet : IsQuiet d'
  pub no_request : (d'.reset_requested ≡ false) × (d'.error_requested ≡ false)

reset_err :
    (failed : Bool) (d : Device)
    → ((reset failed d).cnt_err ≡ d.cnt_err)
      × ((reset failed d).reset_requested ≡ false)
      × ((reset failed d).error_requested ≡ false)
unfolding reset
reset_err failed d =
    let h = disconnect_all-Same d.reg_by_name _ in
    (h.same_err, h.same_requests.0, h.same_requests.1)

module _ (feed_timeout header_size : ℕ) (net : ℕ → SendResult) (records : Records)
    (inspect : Device → Outcome) where
  recover-Recovered :
      (e : Exn) (d : Device)
      → is_exception e ≡ true
      → (d' : Device) × (recover feed_timeout header_size net records inspect e d ≡ done d')
        × Recovered e d d'
  unfolding recover caught
  recover-Recovered e d h =
      let d1 = record d { cnt_err = add32 d.cnt_err 1 } in
      let r = reset_err false d1 in
      (
        caught feed_timeout header_size net records inspect e d,
        rw h refl,
        record {
          in_error = refl;
          message = refl;
          counted = r.0;
          quiet = reset-IsQuiet false d1;
          no_request = (r.1, r.2);
        },
      )

  -- A std::exception in a round of the worker, from whatever part of it, does not leave the loop: the
  -- round returns with the device in Error, the exception as its last message and counted, no request
  -- pending, no register in the send queue and every message free.
  pub run_round-Recovered :
      (poll : Poll) (d d1 : Device) (e : Exn)
      → round_body feed_timeout header_size net records inspect poll d ≡ throws e d1
      → is_exception e ≡ true
      → (d' : Device) × (run_round feed_timeout header_size net records inspect poll d ≡ done d')
        × Recovered e d1 d'
  unfolding run_round
  run_round-Recovered poll d d1 e h k = rw (run_round, h) (recover-Recovered e d1 k)
