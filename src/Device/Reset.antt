-- ===== src/Device/Reset.antt =====
-- Device::Device, request_reset and reset.
use feed_core.Prelude.{
  ℕ, ◌+◌, Bool, true, false, List, [], ◌∷◌, ◌++◌, map, Option, none, some, if◌then◌else◌, length,
  replicate, min, max, Bytes,
}
use feed_core.Prelude.Int.{pos}
use feed_core.Prelude.Exn.{runtime_error}
use feed_core.Prelude.Maps.{insert, bytes_key}
use feed_core.Device.Types.{
  DevState, error, idle, searching, invalid, comm_alarm, invalid_severity, DevReg, Device, Interest,
  Scan, changed, current_changed, new_reg, reg_at, set_reg, no_msg, cleared_msg, jid_info,
  jrom2_info, jrom16_info, reg_id, reg_rom2, reg_rom16,
}
use feed_core.Device.Register.{process}

-- DevReg::reset
unfoldable pub reset_reg : DevReg → DevReg
reset_reg r = record r { state = invalid; read_queued = false; write_queued = false }

-- The memory and the alarm of a register that is disconnected.
unfoldable pub zeroed : DevReg → DevReg
zeroed r = record r {
  mem_rx = replicate (length r.mem_rx) 0;
  mem_tx = replicate (length r.mem_tx) 0;
  stat = comm_alarm;
  sevr = invalid_severity;
}

-- One register of the table. One that is not a bootstrap register is deleted afterwards; its entry
-- stays as the destructor leaves it, and nothing points to it.
unfoldable pub disconnect : ℕ → Device → Device
disconnect p d =
    let d' = process p true (set_reg d p (zeroed (reg_at d p))) in
    set_reg d' p (reset_reg (reg_at d' p))

unfoldable pub disconnect_all : List (Bytes × ℕ) → Device → Device
disconnect_all [] d = d
disconnect_all ((k, p) ∷ m) d = disconnect_all m (disconnect p d)

unfoldable pub is_bootstrap : Device → Option ℕ → Bool
is_bootstrap d none = false
is_bootstrap d (some p) = (reg_at d p).bootstrap

-- The loop over the interests, from number i on.
unfoldable pub detach : Device → List Interest → List Interest
detach d [] = []
detach d (x ∷ xs) = (if is_bootstrap d x.reg then x else record x { reg = none }) ∷ detach d xs

unfoldable pub detach_scans : Device → ℕ → List Interest → List Scan
detach_scans d i [] = []
detach_scans d i (x ∷ xs) =
    let more = detach_scans d (i + 1) xs in if is_bootstrap d x.reg then more else changed i ∷ more

abbrev pub bootstrap_table : List (Bytes × ℕ)
bootstrap_table =
    insert jrom16_info.name reg_rom16
      (insert jrom2_info.name reg_rom2 (insert jid_info.name reg_id []))

abbrev pub start_state : Bool → Bytes → DevState
start_state true name = error
start_state false [] = idle
start_state false (c ∷ cs) = searching

-- Device::reset
unfoldable pub reset : Bool → Device → Device
reset failed d0 =
    let d1 = disconnect_all d0.reg_by_name (record d0 {
      want_to_send = false;
      reset_requested = false;
      error_requested = false;
      after_reset = true;
      current = start_state failed d0.peer_name;
      inflight = map cleared_msg d0.inflight;
      reg_send = [];
    }) in
    record d1 {
      reg_by_name = bootstrap_table;
      last_message = if failed then d1.last_message else none;
      dev_infos = [];
      description = [];
      jsonhash = [];
      codehash = [];
      info32 = [];
      reg_interested = detach d1 d1.reg_interested;
      scans = d1.scans ++ (detach_scans d1 0 d1.reg_interested ++ current_changed ∷ []);
    }

-- Device::request_reset
unfoldable pub request_reset : Device → Device
request_reset d = record d { reset_requested = true }

-- Device::Device, without the sockets and the thread; `nsec` is the clock's.
unfoldable pub new_device : ℕ → ℕ → Device
unfolding reset
new_device feed_num_in_flight nsec = reset false (record {
  peer_name = [];
  current = idle;
  loop_time = 0;
  dev_infos = [];
  raw_infos = [];
  cnt_sent = 0;
  cnt_recv = 0;
  cnt_recv_bytes = 0;
  cnt_ignore = 0;
  cnt_timo = 0;
  cnt_err = 0;
  send_seq = nsec;
  roundtriptimes = replicate 100 (pos 0);
  rtt_ptr = 0;
  last_message = some (runtime_error "Startup" []);
  description = [];
  jsonhash = [];
  codehash = [];
  info32 = [];
  regs = new_reg jid_info true ∷ new_reg jrom2_info true ∷ new_reg jrom16_info true ∷ [];
  reg_by_name = [];
  reg_send = [];
  reg_interested = [];
  records = [];
  inflight = replicate (max 1 (min feed_num_in_flight 255)) no_msg;
  want_to_send = false;
  runner_stop = false;
  reset_requested = false;
  error_requested = false;
  after_reset = false;
  scans = [];
  packets = [];
})
