-- ===== src/Device/Tests.antt =====
-- Runs of the driver on a device with one small register, and the theorems at them.
use feed_core.Prelude.{
  ℕ, ◌≡◌, ◌↔◌, refl, true, false, [], ◌∷◌, none, some, arith, replicate, inl, inr, codes, In, Bytes,
  ◌^◌, ◌+◌, ◌*◌,
}
use feed_core.Prelude.Words.{be_bytes, be_words, put_be32, be32}
use feed_core.Prelude.Int.{pos}
use feed_core.Prelude.Maps.{bytes_lt}
use feed_core.Prelude.Exn.{runtime_error, socket_error}
use feed_core.Device.Types.{
  place_interest, in_key_order, DevReg, Device, Outcome, done, throws, device_of, free, no_alarm,
  no_severity, in_sync, reading, idle, running, jid_info, reg_at, set_reg, msg_at, set_msg, sent,
  cleared_msg,
}
use feed_core.Device.Register.{queue, queue_in, join_read}
use feed_core.Device.Send.{
  SendResult, unreachable, delivered, handle_send, command_word, is_reading,
}
use feed_core.Device.Receive.{
  store_word, reply_offset, is_read_reply, without_status, handle_process, process_slots,
  process_slot, free_slot, flag_word, keep_word, finish_msg, ignore,
}
use feed_core.Device.Reset.{reset}
use feed_core.Device.Inspect.{Records}
use feed_core.Device.Worker.{
  numbers, Poll, handle_state, round_body, run_round, run_callbacks, receive, complete_list,
}
use feed_core.Device.Waiting.{Kept, Unsupported, queue-Kept, queue-Unsupported, returns}
use feed_core.Device.Commands.{reply-command}
use feed_core.Device.Latched.{Ends, Step, handle_state-Step}
use feed_core.Device.Clean.{IsDisconnected, reset-IsDisconnected, reset-completes}
use feed_core.Device.Counting.{Safe, store_word-Safe}
use feed_core.Device.Replay.{handle_process-Replay}
use feed_core.Device.Filling.{Fits}
use feed_core.Device.Sending.{handle_send-Fits}
use feed_core.Device.Recovery.{Recovered, run_round-Recovered}

-- A device Running with the register HELLO, on which record 4 waits, and one message.
abbrev small_reg : DevReg
small_reg = record {
  info = jid_info;
  bootstrap = true;
  state = reading;
  read_queued = false;
  write_queued = false;
  mem_rx = 0 ∷ 0 ∷ [];
  mem_tx = 0 ∷ 0 ∷ [];
  received = false ∷ false ∷ [];
  nremaining = 2;
  next_send = 0;
  rx = 0;
  interested = [];
  stat = no_alarm;
  sevr = no_severity;
  records_inprog = 4 ∷ [];
  records_write = [];
  records_read = [];
}

abbrev small_device : Device
small_device = record {
  peer_name = codes "dev";
  current = running;
  loop_time = 5;
  dev_infos = [];
  raw_infos = [];
  cnt_sent = 0;
  cnt_recv = 0;
  cnt_recv_bytes = 0;
  cnt_ignore = 0;
  cnt_timo = 0;
  cnt_err = 0;
  send_seq = 3;
  roundtriptimes = pos 0 ∷ [];
  rtt_ptr = 0;
  last_message = none;
  description = [];
  jsonhash = [];
  codehash = [];
  info32 = [];
  regs = small_reg ∷ [];
  reg_by_name = (codes "HELLO", 0) ∷ [];
  reg_send = 0 ∷ [];
  reg_interested = [];
  records = [];
  inflight = record { state = free; seq = 0; reg = replicate 180 none; buf = []; due = 0 } ∷ [];
  want_to_send = false;
  runner_stop = false;
  reset_requested = true;
  error_requested = false;
  after_reset = false;
  scans = [];
  packets = [];
}

queue-Kept_example : Kept 0 (some 7) small_device (device_of (queue 0 false (some 7) small_device))
unfolding queue queue_in join_read set_reg reg_at
queue-Kept_example =
    queue-Kept 0 false (some 7) small_device (device_of (queue 0 false (some 7) small_device))
      (omega arith) refl

-- HELLO is read-only, and idle here.
abbrev idle_device : Device
idle_device = record small_device { regs = record small_reg { state = in_sync } ∷ [] }

queue-Unsupported_example :
    ((returns (queue 0 true none idle_device) ≡ false)
      ↔ Unsupported true (reg_at idle_device 0).state (reg_at idle_device 0))
    × (Unsupported true (reg_at idle_device 0).state (reg_at idle_device 0)
        → queue 0 true none idle_device
          ≡ throws (runtime_error "Register does not support requested operation" []) idle_device)
queue-Unsupported_example = queue-Unsupported 0 true none idle_device

reply-command_example :
    let word = command_word reading 0x100 5 in
    let reply = word + 9 * 2 ^ 24 in
    (without_status reply ≡ word)
    × (is_read_reply reply ≡ is_reading reading)
    × (reply_offset reply 0x100 ≡ 5)
reply-command_example = reply-command reading 0x100 5 9 (omega arith) (omega arith)

handle_state-Step_example :
    Ends (Step small_device small_device.current) (handle_state (λ d. done d) small_device)
handle_state-Step_example = handle_state-Step (λ d. done d) small_device

reset-IsDisconnected_example : IsDisconnected (reg_at (reset false small_device) 0)
reset-IsDisconnected_example =
    reset-IsDisconnected false small_device (codes "HELLO") 0 (omega arith) (inl refl)

reset-completes_example : In 4 (reset true small_device).records
unfolding reg_at
reset-completes_example =
    reset-completes true small_device (codes "HELLO") 0 4 (omega arith) (inl refl) (inr (inl refl))

store_word-Safe_example : Safe 0 (store_word 0 0x10000001 17 small_device)
unfolding reg_at
store_word-Safe_example = store_word-Safe 0 0x10000001 17 small_device (
  omega arith,
  record { counted = refl; rx_length = refl; tx_length = refl; bounded = omega arith },
)

abbrev lossy : ℕ → SendResult
lossy i = unreachable

abbrev reaching : ℕ → SendResult
reaching i = delivered

handle_send-Fits_example : Fits 1 [] 1 (handle_send 10 reaching small_device)
handle_send-Fits_example =
    handle_send-Fits 1 [] 10 reaching small_device refl (omega arith, tt) refl

-- A poll that fails.
abbrev failing_poll : Poll
failing_poll = record {
  now = 6;
  failure = some (socket_error 5);
  datagrams = [];
  receive_error = none;
  writable = false;
}

abbrev test_records : Records
test_records = record { get_info = λ d. []; connected = λ i d. d; complete = λ i d. done d }

abbrev failing_body : Outcome
failing_body =
    round_body 10 28 lossy test_records (λ d. done d) failing_poll
      (record small_device { current = idle })

run_round-Recovered_example :
    (d' : Device) × (run_round 10 28 lossy test_records
        (λ d. done d)
        failing_poll
        (record small_device { current = idle })
      ≡ done d')
    × Recovered (socket_error 5) (device_of failing_body) d'
unfolding round_body run_callbacks receive complete_list
run_round-Recovered_example =
    run_round-Recovered 10 28 lossy test_records (λ d. done d) failing_poll
      (record small_device { current = idle }) (device_of failing_body) (socket_error 5) refl refl

-- The device waits for the answer to a read of the first word of HELLO.
abbrev waiting_device : Device
waiting_device = record small_device {
  reg_send = [];
  inflight =
      record {
        state = sent;
        seq = 3;
        reg = some 0 ∷ replicate 179 none;
        buf = 0xfeedc0de ∷ 3 ∷ 0x10000000 ∷ 0 ∷ 0x10000000 ∷ 0 ∷ 0x10000000 ∷ 0 ∷ [];
        due = 15;
      }
      ∷ [];
}

abbrev word_reply : Bytes
word_reply = be_bytes (0xfeedc0de ∷ 3 ∷ 0x10000000 ∷ 77 ∷ 0x10000000 ∷ 0 ∷ 0x10000000 ∷ 0 ∷ [])

abbrev answered_device : Device
answered_device = device_of (handle_process 10 word_reply waiting_device)

-- The word is stored, one is missing, and the message is free.
answered_run :
    ((reg_at answered_device 0).mem_rx ≡ 77 ∷ 0 ∷ [])
    × ((reg_at answered_device 0).nremaining ≡ 1)
    × ((msg_at answered_device 0).state ≡ free)
unfolding handle_process process_slots process_slot store_word flag_word keep_word free_slot
    finish_msg cleared_msg reg_at set_reg msg_at set_msg be_words be_bytes put_be32 be32
    reply_offset is_read_reply without_status replicate
answered_run = (refl, refl, refl)

handle_process-Replay_example :
    handle_process 10 word_reply answered_device ≡ done (ignore answered_device)
unfolding handle_process process_slots process_slot store_word flag_word keep_word free_slot
    finish_msg cleared_msg reg_at set_reg msg_at set_msg be_words be_bytes put_be32 be32
    reply_offset is_read_reply without_status replicate
handle_process-Replay_example =
    handle_process-Replay 10 word_reply waiting_device answered_device refl

-- The multimap of the interests goes by the key, and for one key by the order of insertion.
order_run :
    numbers (
      (record { key = codes "b"; reg = none })
      ∷ (record { key = codes "a"; reg = some 0 })
      ∷ (record { key = codes "b"; reg = some 1 })
      ∷ (record { key = codes "ab"; reg = none })
      ∷ [])
    ≡ 1 ∷ 3 ∷ 0 ∷ 2 ∷ []
unfolding numbers in_key_order place_interest bytes_lt
order_run = refl
