-- ===== src/Support/Fixtures.antt =====
-- A device with one writable register of four words, and a record for every other one of them.
use feed_core.Prelude.{ℕ, ◌*◌, true, false, [], ◌∷◌, none, some, codes, ◌/◌, ◌==◌}
use feed_core.Prelude.Int.{pos, pos_part}
use feed_core.JBlob.{JRegister}
use feed_core.Device.Types.{DevReg, Device, no_alarm, no_severity, in_sync, running, jid_info}
use feed_core.Support.Types.{Doubles, Prec, Info}

-- Doubles that are whole numbers.
instance abbrev pub whole : Doubles
whole = record {
  Double = ℕ;
  quotient = λ x y. x / y;
  product = λ z y. pos_part z * y;
  le_zero = λ x. x == 0;
}

abbrev pub wave_info : JRegister
wave_info = record jid_info { name = codes "wave"; writable = true; data_width = 16 }

abbrev pub wave : DevReg
wave = record {
  info = wave_info;
  bootstrap = false;
  state = in_sync;
  read_queued = false;
  write_queued = false;
  mem_rx = 1 ∷ 2 ∷ 3 ∷ 4 ∷ [];
  mem_tx = 0 ∷ 0 ∷ 0 ∷ 0 ∷ [];
  received = false ∷ false ∷ false ∷ false ∷ [];
  nremaining = 0;
  next_send = 4;
  rx = 9;
  interested = [];
  stat = no_alarm;
  sevr = no_severity;
  records_inprog = [];
  records_write = [];
  records_read = [];
}

abbrev pub wave_device : Device
wave_device = record {
  peer_name = codes "dev";
  current = running;
  loop_time = 5;
  dev_infos = [];
  raw_infos = [];
  cnt_sent = 0;
  cnt_recv = 0;
  cnt_recv_bytes = 0;
  cnt_ignore = 0;
  cnt_timo = 0;
  cnt_err = 0;
  send_seq = 3;
  roundtriptimes = pos 0 ∷ [];
  rtt_ptr = 0;
  last_message = none;
  description = codes "board";
  jsonhash = [];
  codehash = [];
  info32 = [];
  regs = wave ∷ [];
  reg_by_name = (codes "wave", 0) ∷ [];
  reg_send = [];
  reg_interested = [];
  records = [];
  inflight = [];
  want_to_send = false;
  runner_stop = false;
  reset_requested = false;
  error_requested = false;
  after_reset = false;
  scans = [];
  packets = [];
}

abbrev pub idle_prec : Prec
idle_prec = record {
  pact = false;
  udf = false;
  io_intr = false;
  device_time = false;
  time = 0;
  alarms = [];
  posts = [];
}

-- Every other word of the register, from the first on.
abbrev pub even_words : Info ℕ
even_words = record {
  options = record {
    offset = 0;
    step = 2;
    scale = 1;
    commit = true;
    wait = true;
    rbv = false;
    meta = true;
  };
  size = 0;
  reg = some 0;
  self = 7;
}
