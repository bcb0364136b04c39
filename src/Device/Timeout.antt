-- ===== src/Device/Timeout.antt =====
-- Device::do_timeout and handle_timeout.
use feed_core.Prelude.{
  ℕ, zero, suc, ◌+◌, Bool, true, false, not, ◌||◌, List, [], ◌∷◌, map, none, some, ltb, leb, ◌==◌,
  if◌then◌else◌, length, get_or, replicate,
}
use feed_core.Prelude.Words.{add32}
use feed_core.Prelude.Exn.{assertion}
use feed_core.Device.Types.{
  invalid, inprogress, comm_alarm, invalid_severity, DevMsg, Device, is_sent, reg_at, set_reg,
  msg_at, set_msg, nreg, cleared_msg, Outcome, done, throws, ◌>>>◌,
}
use feed_core.Device.Register.{process, scan_interested}
use feed_core.Device.Send.{pop_front}

-- Every slot of every message is emptied.
unfoldable pub orphan : DevMsg → DevMsg
orphan m = record m { reg = replicate nreg none }

unfoldable pub orphan_all : Device → Device
orphan_all d = record d { inflight = map orphan d.inflight }

abbrev pub front_is : ℕ → List ℕ → Bool
front_is p [] = false
front_is p (q ∷ qs) = q == p

-- The register of one slot gives up.
unfoldable pub timeout_reg : ℕ → Device → Outcome
timeout_reg p d0 =
    let r0 = reg_at d0 p in
    let d1 = orphan_all d0 in
    let front = front_is p d1.reg_send in
    let d2 = record d1 { reg_send = if front then pop_front d1.reg_send else d1.reg_send } in
    let d3 =
      set_reg d2 p (record r0 { state = invalid; stat = comm_alarm; sevr = invalid_severity }) in
    if not (inprogress r0.state)
    then throws (assertion "reg->inprogress()") d0
    else if not (front || leb (length r0.mem_tx) r0.next_send)
    then throws (assertion "reg->next_send>=reg->mem_tx.size()") d1
    else done (scan_interested p (process p true d3))

unfoldable pub timeout_slots : ℕ → ℕ → ℕ → Device → Outcome
timeout_slots zero i j d = done d
timeout_slots (suc n) i j d =
    elim (get_or (msg_at d i).reg j none) [ none ↦ done d | some p ↦ timeout_reg p d ]
    >>> timeout_slots n i (j + 1)

-- Device::do_timeout
unfoldable pub do_timeout : ℕ → Device → Outcome
do_timeout i d =
    timeout_slots nreg i 0 (record d { cnt_timo = add32 d.cnt_timo 1; reset_requested = true })
    >>> λ d'. done (set_msg d' i (cleared_msg (msg_at d' i)))

unfoldable pub timeout_msgs : ℕ → ℕ → Device → Outcome
timeout_msgs zero i d = done d
timeout_msgs (suc n) i d =
    let m = msg_at d i in
    (if not (is_sent m.state) || ltb d.loop_time m.due then done d else do_timeout i d)
    >>> timeout_msgs n (i + 1)

-- Device::handle_timeout
unfoldable pub handle_timeout : Device → Outcome
handle_timeout d = timeout_msgs (length d.inflight) 0 d
