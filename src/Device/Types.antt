-- ===== src/Device/Types.antt =====
-- src/driver/device.h: the state of a device, its registers and its messages. A pointer to a register or
-- to an interest is an index, the interest's into the list of those added so far; a word that the source
-- keeps in network byte order is its value.
use feed_core.Prelude.{
  ℕ, ◌^◌, ◌+◌, Bool, true, false, List, [], ◌∷◌, if◌then◌else◌, Option, none, Bytes, codes, get_or,
  set, replicate,
}
use feed_core.Prelude.Int.{ℤ}
use feed_core.Prelude.Exn.{Exn}
use feed_core.Prelude.Maps.{bytes_lt}
use feed_core.JBlob.{JRegister, unsigned}

-- The alarm codes of EPICS that the driver sets.
pub data Stat : Type 0 where
  no_alarm comm_alarm udf_alarm read_alarm write_alarm : Stat

pub data Severity : Type 0 where
  no_severity invalid_severity : Severity

pub data RegState : Type 0 where
  invalid in_sync reading writing : RegState

pub record DevReg : Type 0 where
  pub info : JRegister
  pub bootstrap : Bool
  pub state : RegState
  pub read_queued : Bool
  pub write_queued : Bool
  pub mem_rx : List ℕ
  pub mem_tx : List ℕ
  pub received : List Bool
  pub nremaining : ℕ
  pub next_send : ℕ
  pub rx : ℕ
  pub interested : List ℕ
  pub stat : Stat
  pub sevr : Severity
  pub records_inprog : List ℕ
  pub records_write : List ℕ
  pub records_read : List ℕ

-- DevReg::inprogress
abbrev pub inprogress : RegState → Bool
inprogress reading = true
inprogress writing = true
inprogress invalid = false
inprogress in_sync = false

-- DevReg::DevReg, for a width below 32.
unfoldable pub new_reg : JRegister → Bool → DevReg
new_reg info bootstrap =
    let size = 2 ^ info.addr_width in
    record {
      info = info;
      bootstrap = bootstrap;
      state = invalid;
      read_queued = false;
      write_queued = false;
      mem_rx = replicate size 0;
      mem_tx = replicate size 0;
      received = replicate size false;
      nremaining = 0;
      next_send = size;
      rx = 0;
      interested = [];
      stat = udf_alarm;
      sevr = invalid_severity;
      records_inprog = [];
      records_write = [];
      records_read = [];
    }

pub data MsgState : Type 0 where
  free ready sent : MsgState

abbrev pub is_sent : MsgState → Bool
is_sent free = false
is_sent ready = false
is_sent sent = true

abbrev pub is_ready : MsgState → Bool
is_ready free = false
is_ready ready = true
is_ready sent = false

-- DevMsg::nreg
abbrev pub nreg : ℕ
nreg = 180

pub record DevMsg : Type 0 where
  pub state : MsgState
  pub seq : ℕ
  pub reg : List (Option ℕ)
  pub buf : List ℕ
  pub due : ℕ

-- DevMsg::clear, which keeps the due time.
unfoldable pub cleared_msg : DevMsg → DevMsg
cleared_msg m = record m { state = free; seq = 0; reg = replicate nreg none; buf = [] }

-- Device::state_t
pub data DevState : Type 0 where
  error idle searching inspecting running : DevState

-- Device::active
abbrev pub active : DevState → Bool
active error = false
active idle = false
active searching = false
active inspecting = true
active running = true

-- A record's interest in a register, under the register's name in `reg_interested`.
pub record Interest : Type 0 where
  pub key : Bytes
  pub reg : Option ℕ

-- An interest, by its number, behind those of keys that are not greater: std::multimap::insert.
unfoldable pub place_interest : ℕ → Interest → List (ℕ × Interest) → List (ℕ × Interest)
place_interest i x [] = (i, x) ∷ []
place_interest i x ((j, y) ∷ m) =
    if bytes_lt x.key y.key then (i, x) ∷ (j, y) ∷ m else (j, y) ∷ place_interest i x m

-- The interests from number i on with those that are placed: the multimap in the order of an iteration.
unfoldable pub in_key_order : ℕ → List Interest → List (ℕ × Interest) → List (ℕ × Interest)
in_key_order i [] m = m
in_key_order i (x ∷ xs) m = in_key_order (i + 1) xs (place_interest i x m)

-- A scanIoRequest.
pub data Scan : Type 0 where
  changed : ℕ → Scan
  on_connect current_changed : Scan

pub record Device : Type 0 where
  pub peer_name : Bytes
  pub current : DevState
  pub loop_time : ℕ
  pub dev_infos : Bytes
  pub raw_infos : Bytes
  pub cnt_sent : ℕ
  pub cnt_recv : ℕ
  pub cnt_recv_bytes : ℕ
  pub cnt_ignore : ℕ
  pub cnt_timo : ℕ
  pub cnt_err : ℕ
  pub send_seq : ℕ
  pub roundtriptimes : List ℤ
  pub rtt_ptr : ℕ
  pub last_message : Option Exn
  pub description : Bytes
  pub jsonhash : Bytes
  pub codehash : Bytes
  pub info32 : List (Bytes × ℤ)
  pub regs : List DevReg
  pub reg_by_name : List (Bytes × ℕ)
  pub reg_send : List ℕ
  pub reg_interested : List Interest
  pub records : List ℕ
  pub inflight : List DevMsg
  pub want_to_send : Bool
  pub runner_stop : Bool
  pub reset_requested : Bool
  pub error_requested : Bool
  pub after_reset : Bool
  -- what the device has asked of EPICS and of the network, oldest first
  pub scans : List Scan
  pub packets : List (List ℕ)

-- gblrom
abbrev pub jid_info : JRegister
jid_info = record {
  name = codes "HELLO";
  description = codes "Hello World!";
  base_addr = 0;
  addr_width = 2;
  data_width = 32;
  sign = unsigned;
  readable = true;
  writable = false;
}

abbrev pub jrom2_info : JRegister
jrom2_info = record {
  name = codes "ROM 2K";
  description = codes "Static configuration";
  base_addr = 0x800;
  addr_width = 11;
  data_width = 16;
  sign = unsigned;
  readable = true;
  writable = false;
}

abbrev pub jrom16_info : JRegister
jrom16_info = record {
  name = codes "ROM 16K";
  description = codes "Static configuration";
  base_addr = 0x4000;
  addr_width = 14;
  data_width = 16;
  sign = unsigned;
  readable = true;
  writable = false;
}

-- The registers that exist as long as the device, by their index.
abbrev pub reg_id : ℕ
reg_id = 0

abbrev pub reg_rom2 : ℕ
reg_rom2 = 1

abbrev pub reg_rom16 : ℕ
reg_rom16 = 2

-- A value for a wild pointer, which the source has no value for.
unfoldable pub no_reg : DevReg
unfolding new_reg
no_reg = new_reg jid_info false

unfoldable pub reg_at : Device → ℕ → DevReg
reg_at d p = get_or d.regs p no_reg

unfoldable pub set_reg : Device → ℕ → DevReg → Device
set_reg d p r = record d { regs = set d.regs p r }

unfoldable pub no_msg : DevMsg
no_msg = record { state = free; seq = 0; reg = replicate nreg none; buf = []; due = 0 }

unfoldable pub msg_at : Device → ℕ → DevMsg
msg_at d i = get_or d.inflight i no_msg

unfoldable pub set_msg : Device → ℕ → DevMsg → Device
set_msg d i m = record d { inflight = set d.inflight i m }

-- The result of a call: the device, also after a throw.
pub data Outcome : Type 0 where
  done : Device → Outcome
  throws : Exn → Device → Outcome

infixl 5 ◌>>>◌
abbrev pub ◌>>>◌ : Outcome → (Device → Outcome) → Outcome
done d >>> f = f d
throws e d >>> f = throws e d

abbrev pub device_of : Outcome → Device
device_of (done d) = d
device_of (throws e d) = d
