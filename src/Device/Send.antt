-- ===== src/Device/Send.antt =====
-- Device::handle_send: messages are filled from the send queue, then sent.
use feed_core.Prelude.{
  ℕ, zero, suc, ◌+◌, ◌-◌, ◌*◌, ◌/◌, ◌%◌, ◌^◌, Bool, true, false, not, List, [], ◌∷◌, ◌++◌, Option,
  none, some, ltb, leb, ◌==◌, if◌then◌else◌, length, set, get_or, take, replicate,
}
use feed_core.Prelude.Words.{add32}
use feed_core.Prelude.Exn.{assertion, socket_error}
use feed_core.Device.Types.{
  RegState, invalid, in_sync, reading, writing, inprogress, DevMsg, ready, sent, is_sent, is_ready,
  Device, reg_at, set_reg, msg_at, set_msg, nreg, Outcome, done, throws, ◌>>>◌,
}

-- The result of a sendto.
pub data SendResult : Type 0 where
  delivered would_block unreachable : SendResult
  failed : ℕ → SendResult

-- std::vector::resize
unfoldable pub resize : ℕ → List ℕ → List ℕ
resize n xs = take n xs ++ replicate (n - length xs) 0

-- `addr |= 0x10000000`
unfoldable pub or_read : ℕ → ℕ
or_read a = if a / 2 ^ 28 % 2 == 1 then a else a + 2 ^ 28

abbrev pub is_some : Option ℕ → Bool
is_some none = false
is_some (some p) = true

abbrev pub is_reading : RegState → Bool
is_reading reading = true
is_reading writing = false
is_reading invalid = false
is_reading in_sync = false

-- The command and address of the word at an offset.
unfoldable pub command_word : RegState → ℕ → ℕ → ℕ
unfolding or_read
command_word s base_addr offset =
    let addr = add32 base_addr offset in if is_reading s then or_read addr else addr

-- std::deque::pop_front
abbrev pub pop_front : List ℕ → List ℕ
pop_front [] = []
pop_front (x ∷ xs) = xs

-- Slot j of message i takes the next word of the register p in front of the send queue.
unfoldable pub fill_slot : ℕ → ℕ → ℕ → Device → Outcome
fill_slot i j p d =
    let r = reg_at d p in
    let m = msg_at d i in
    let offset = r.next_send in
    let word = command_word r.state r.info.base_addr offset in
    let val = if is_reading r.state then 0 else get_or r.mem_tx offset 0 in
    let buf = resize (2 * j + 4) m.buf in
    let sent_all = leb (length r.mem_tx) (offset + 1) in
    if not (inprogress r.state)
    then throws (assertion "R->inprogress()") d
    else if not (ltb offset (length r.mem_tx))
    then throws (assertion "R->next_send < R->mem_tx.size()") d
    else done (
        set_msg
          (set_reg (record d { reg_send = if sent_all then pop_front d.reg_send else d.reg_send }) p
            (record r { next_send = offset + 1 }))
          i
          (record m {
            reg = set m.reg j (some p);
            buf = set (set buf (2 * j + 2) word) (2 * j + 3) val;
          }))

-- The loop over the slots j, j + 1, … of message i.
unfoldable pub fill_slots : ℕ → ℕ → ℕ → Device → Outcome
fill_slots zero i j d = done d
fill_slots (suc n) i j d = elim d.reg_send [
  | [] ↦ done d
  | p ∷ rest ↦
      (if is_some (get_or (msg_at d i).reg j none) then done d else fill_slot i j p d)
      >>> fill_slots n i (j + 1)
]

abbrev pub is_empty : List ℕ → Bool
is_empty [] = true
is_empty (x ∷ xs) = false

-- `if(msg.reg[0]) msg.state = DevMsg::Ready`
unfoldable pub mark_ready : ℕ → Device → Device
mark_ready i d =
    let m = msg_at d i in
    if is_some (get_or m.reg 0 none) then set_msg d i (record m { state = ready }) else d

-- The first pass over the messages i, i + 1, …
unfoldable pub fill_msgs : ℕ → ℕ → Device → Outcome
fill_msgs zero i d = done d
fill_msgs (suc n) i d =
    (if is_empty d.reg_send
      then done d
      else if is_sent (msg_at d i).state
      then done d
      else (fill_slots nreg i 0 d >>> λ d'. done (mark_ready i d')))
    >>> fill_msgs n (i + 1)

-- Short messages are padded with reads of address 0; each round adds one.
unfoldable pub pad_buf : ℕ → List ℕ → List ℕ
pad_buf zero buf = buf
pad_buf (suc fuel) buf =
    let more = pad_buf fuel (buf ++ 0x10000000 ∷ 0 ∷ []) in if ltb (length buf) 8 then more else buf

-- The message as it goes out: padded, numbered, with its header.
unfoldable pub sealed : ℕ → ℕ → DevMsg → DevMsg
sealed i send_seq m =
    let seq = i * 2 ^ 24 + send_seq % 2 ^ 24 in
    record m { seq = seq; buf = set (set (pad_buf 8 m.buf) 0 0xfeedc0de) 1 seq }

module _ (feed_timeout : ℕ) (net : ℕ → SendResult) where
  -- `net i` is what sendto makes of message i. The second pass, over the messages i, i + 1, …; one
  -- that would block ends the call.
  unfoldable pub send_msgs : ℕ → ℕ → Device → Outcome
  send_msgs zero i d = done d
  send_msgs (suc n) i d =
      let m = sealed i d.send_seq (msg_at d i) in
      let d' = set_msg (record d { send_seq = add32 d.send_seq 1 }) i m in
      let gone = record m { state = sent; due = d.loop_time + feed_timeout } in
      let next = send_msgs n (i + 1) d in
      let after_send = send_msgs n (i + 1) (
        set_msg (record d' { cnt_sent = add32 d.cnt_sent 1; packets = d.packets ++ m.buf ∷ [] }) i
          gone) in
      let after_lost = send_msgs n (i + 1) (set_msg d' i gone) in
      if is_ready (msg_at d i).state
      then elim (net i) [
        | delivered ↦ after_send
        | would_block ↦ done (record d' { want_to_send = true })
        | unreachable ↦ after_lost
        | failed code ↦ throws (socket_error code) d'
      ]
      else next

  -- Device::handle_send
  unfoldable pub handle_send : Device → Outcome
  handle_send d = fill_msgs (length d.inflight) 0 d >>> λ d'. send_msgs (length d'.inflight) 0 d'
