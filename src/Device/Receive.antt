-- ===== src/Device/Receive.antt =====
-- Device::handle_process: a reply is checked against the message that it answers, and its words go
-- to the registers.
use feed_core.Prelude.{
  ℕ, zero, suc, ◌+◌, ◌-◌, ◌*◌, ◌/◌, ◌%◌, ◌^◌, Bool, true, false, not, ◌||◌, ◌&&◌, List, [], ◌∷◌,
  ◌++◌, none, some, ltb, leb, ◌==◌, if◌then◌else◌, length, get_or, set, Bytes,
}
use feed_core.Prelude.Int.{sub_ℕ}
use feed_core.Prelude.Words.{add32, sub32, be_words}
use feed_core.Prelude.Exn.{assertion, out_of_range}
use feed_core.Device.Types.{
  in_sync, inprogress, no_alarm, no_severity, DevReg, Device, is_sent, reg_at, set_reg, msg_at,
  set_msg, nreg, cleared_msg, Outcome, done, throws, ◌>>>◌,
}
use feed_core.Device.Register.{process, scan_interested, queue}
use feed_core.Device.Timeout.{do_timeout}

-- `v & 0xf0ffffff`
unfoldable pub without_status : ℕ → ℕ
without_status v = v / 2 ^ 28 * 2 ^ 28 + v % 2 ^ 24

abbrev pub all_true : List Bool → Bool
all_true [] = true
all_true (b ∷ bs) = b && all_true bs

-- A queued operation starts when the one in progress is complete.
unfoldable pub start_queued : ℕ → Device → Outcome
start_queued p d =
    let r = reg_at d p in
    if r.write_queued
    then queue p true none (
        set_reg d p (record r {
          write_queued = false;
          records_inprog = r.records_inprog ++ r.records_write;
          records_write = [];
        }))
    else if r.read_queued
    then queue p false none (
        set_reg d p (record r {
          read_queued = false;
          records_inprog = r.records_inprog ++ r.records_read;
          records_read = [];
        }))
    else done d

-- All words of the register are there.
unfoldable pub complete_reg : ℕ → Device → Outcome
complete_reg p d =
    let r = reg_at d p in
    let d' =
      set_reg d p
        (record r { state = in_sync; rx = d.loop_time; stat = no_alarm; sevr = no_severity }) in
    if not (all_true r.received)
    then throws (assertion "all addresses received") d
    else start_queued p (scan_interested p (process p false d'))

-- `(cmd_addr&0x00ffffff) - base_addr`
unfoldable pub reply_offset : ℕ → ℕ → ℕ
reply_offset cmd_addr base_addr = sub32 (cmd_addr % 2 ^ 24) base_addr

-- `cmd_addr&0x10000000`
unfoldable pub is_read_reply : ℕ → Bool
is_read_reply cmd_addr = cmd_addr / 2 ^ 28 % 2 == 1

-- The value that a read returns.
unfoldable pub keep_word : Bool → ℕ → ℕ → DevReg → DevReg
keep_word false offset value r = r
keep_word true offset value r = record r { mem_rx = set r.mem_rx offset value }

-- The flag of a word that is answered for the first time; `nremaining` is a size_t.
unfoldable pub flag_word : ℕ → DevReg → DevReg
flag_word offset r = if get_or r.received offset false then r else record r {
  received = set r.received offset true;
  nremaining = (r.nremaining + 2 ^ 64 - 1) % 2 ^ 64;
}

-- One answered word. `at` throws on an offset outside the register.
unfoldable pub store_word : ℕ → ℕ → ℕ → Device → Outcome
store_word p cmd_addr value d =
    let r = reg_at d p in
    let offset = reply_offset cmd_addr r.info.base_addr in
    let is_read = is_read_reply cmd_addr in
    let stored = keep_word is_read offset value r in
    let flagged = flag_word offset stored in
    let d' = set_reg d p flagged in
    if is_read && leb (length r.mem_rx) offset
    then throws out_of_range d
    else if leb (length r.received) offset
    then throws out_of_range (set_reg d p stored)
    else if flagged.nremaining == 0
    then complete_reg p d'
    else done d'

-- `msg.reg[j] = 0`
unfoldable pub free_slot : ℕ → ℕ → Device → Device
free_slot i j d = let m = msg_at d i in set_msg d i (record m { reg = set m.reg j none })

-- Slot j of the answered message i, for the words of the reply.
unfoldable pub process_slot : ℕ → ℕ → List ℕ → Device → Outcome
process_slot i j words d =
    let m = msg_at d i in
    elim (get_or m.reg j none) [
      | none ↦ done d
      | some p ↦
          if not (inprogress (reg_at d p).state)
          then done d
          else if leb (length words) (j * 2 + 3)
          then do_timeout i d
          else if without_status (get_or words (j * 2 + 2) 0) == get_or m.buf (j * 2 + 2) 0
          then (store_word p (get_or words (j * 2 + 2) 0) (get_or words (j * 2 + 3) 0) d >>> λ d'.
              done (free_slot i j d'))
          else do_timeout i d
    ]

unfoldable pub process_slots : ℕ → ℕ → ℕ → List ℕ → Device → Outcome
process_slots zero i j words d = done d
process_slots (suc n) i j words d = process_slot i j words d >>> process_slots n i (j + 1) words

unfoldable pub ignore : Device → Device
ignore d = record d { cnt_ignore = add32 d.cnt_ignore 1 }

-- The round-trip time, and the end of the message.
unfoldable pub finish_msg : ℕ → ℕ → Device → Device
finish_msg feed_timeout i d =
    let m = msg_at d i in
    set_msg
      (record d {
        roundtriptimes = set d.roundtriptimes d.rtt_ptr (sub_ℕ (d.loop_time + feed_timeout) m.due);
        rtt_ptr = (d.rtt_ptr + 1) % length d.roundtriptimes;
      })
      i (cleared_msg m)

-- Device::handle_process
unfoldable pub handle_process : ℕ → Bytes → Device → Outcome
handle_process feed_timeout buf d =
    let words = be_words buf in
    let seq = get_or words 1 0 in
    let off = seq / 2 ^ 24 in
    if ltb (length buf) 32
    then done (ignore d)
    else if not (get_or words 0 0 == 0xfeedc0de) || leb (length d.inflight) off
    then done (ignore d)
    else if not (is_sent (msg_at d off).state)
    then done (ignore d)
    else if not ((msg_at d off).seq == seq)
    then done (ignore d)
    else (process_slots nreg off 0 words d >>> λ d'. done (finish_msg feed_timeout off d'))
