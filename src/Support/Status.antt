-- ===== src/Support/Status.antt =====
-- The device-wide records of src/driver/devmain.cpp but for sync: requests to the device, and what it
-- shows of its state. The record's own fields are arguments; a TRY without a RecInfo is in Support/Types.
pub mod Bounds
use feed_core.Prelude.{
  ℕ, zero, suc, ◌+◌, ◌-◌, ◌^◌, ◌%◌, Bool, true, false, not, ◌&&◌, List, [], ◌∷◌, ◌++◌, Option, none,
  some, if◌then◌else◌, ltb, ◌==◌, Bytes, codes, length, take, drop, min,
}
use feed_core.Prelude.Int.{ℤ, signed32}
use feed_core.Prelude.Exn.{Exn, runtime_error, Result, ok, ◌>>=◌}
use feed_core.Options.{Pairs, read_number}
use feed_core.Prelude.Maps.{lookup, bytes_key}
use feed_core.Prelude.Words.{add32}
use feed_core.Device.Types.{
  comm_alarm, read_alarm, write_alarm, invalid_severity, DevState, error, idle, searching,
  inspecting, running, RegState, invalid, in_sync, reading, writing, Device, reg_at,
}
use feed_core.Device.Reset.{request_reset}
use feed_core.Support.Types.{
  Ftype, char, Prec, Status, success, enodev, einval, failure, Call, raise, caught,
}

-- write_address. `resolves` says whether aToIPAddr takes the text for a host and a port; the address itself
-- is not modelled.
unfoldable pub write_address : (Bytes → Bool) → Bytes → Prec → Device → Call
write_address resolves [] prec d = record {
  status = success;
  prec = prec;
  device = record (request_reset d) { peer_name = [] };
}
write_address resolves (c ∷ cs) prec d =
    if not (resolves (c ∷ cs))
    then record { status = einval; prec = raise write_alarm invalid_severity prec; device = d }
    else record {
      status = success;
      prec = prec;
      device = record (request_reset d) { peer_name = c ∷ cs };
    }

-- force_error. The device holds its last message as an Exn.
unfoldable pub force_error : Exn → Device → Device
force_error val d = record d { last_message = some val; error_requested = true }

-- read_dev_state
abbrev pub state_code : DevState → ℕ
state_code error = 0
state_code idle = 1
state_code searching = 2
state_code inspecting = 3
state_code running = 4

-- read_reg_state
abbrev pub reg_state_code : RegState → ℕ
reg_state_code invalid = 0
reg_state_code in_sync = 1
reg_state_code reading = 2
reg_state_code writing = 3

unfoldable pub read_reg_state : Option ℕ → Device → ℕ
read_reg_state none d = 0
read_reg_state (some p) d = 1 + reg_state_code (reg_at d p).state

-- read_inc, of VAL
unfoldable pub read_inc : ℕ → ℕ
read_inc val = add32 val 1

-- An array record of nelm characters: its buffer and NORD after the call.
pub record Text : Type 0 where
  pub status : Status
  pub prec : Prec
  pub buffer : Bytes
  pub nord : ℕ

-- The text that the option `offset` selects.
abbrev pub json_text : ℕ → Device → Option Bytes
json_text offset d =
    if offset == 0
    then some d.description
    else if offset == 1
    then some d.jsonhash
    else if offset == 2
    then some d.codehash
    else none

-- The first `len` characters of a text with its NUL, the last of them replaced by NUL.
unfoldable pub cut_text : ℕ → Bytes → Bytes
cut_text len text = take (len - 1) text ++ 0 ∷ []

abbrev pub no_text : Prec → Bytes → ℕ → Text
no_text prec buffer nord = record {
  status = failure;
  prec = raise read_alarm invalid_severity prec;
  buffer = buffer;
  nord = nord;
}

abbrev pub is_char : Ftype → Bool
is_char char = true
is_char _ = false

-- The copy over the start of the buffer.
unfoldable pub read_text : Option Bytes → Prec → Bytes → ℕ → Text
read_text none prec buffer nord = no_text prec buffer nord
read_text (some text) prec buffer nord =
    let len = min (length text + 1) (length buffer) in
    if len == 0 then no_text prec buffer nord else record {
      status = success;
      prec = prec;
      buffer = cut_text len text ++ drop len buffer;
      nord = len;
    }

-- read_jsoninfo
unfoldable pub read_jsoninfo : Ftype → ℕ → Prec → Bytes → ℕ → Device → Text
read_jsoninfo ftvl offset prec buffer nord d =
    if is_char ftvl
    then read_text (json_text offset d) prec buffer nord
    else no_text prec buffer nord

-- read_counter, of VAL: the bit pattern of an epicsInt32.
abbrev pub counter : ℕ → Device → Option ℕ
counter offset d =
    if offset == 0
    then some d.cnt_sent
    else if offset == 1
    then some d.cnt_recv
    else if offset == 2
    then some d.cnt_ignore
    else if offset == 3
    then some d.cnt_timo
    else if offset == 4
    then some d.cnt_err
    else if offset == 5
    then some d.send_seq
    else if offset == 6
    then some d.cnt_recv_bytes
    else none

unfoldable pub counted : Option ℕ → ℕ → Prec → ℕ × Prec
counted none val prec = (val, raise read_alarm invalid_severity prec)
counted (some n) val prec = (n % 2 ^ 32, prec)

unfoldable pub read_counter : ℕ → ℕ → Prec → Device → ℕ × Prec
read_counter offset val prec d = counted (counter offset d) val prec

abbrev pub text_of : Call → Bytes → ℕ → Text
text_of c buffer nord = record { status = c.status; prec = c.prec; buffer = buffer; nord = nord }

-- read_error, where `message` is the text of the device's last message.
unfoldable pub read_error : Bytes → Prec → Bytes → ℕ → Device → Text
read_error message prec buffer nord d =
    let len = min (length buffer) (length message + 1) in
    if ltb (length buffer) 2 then text_of (caught prec d) buffer nord else record {
      status = success;
      prec = prec;
      buffer = cut_text len message ++ drop len buffer;
      nord = len;
    }

-- read_jblob
abbrev pub blob_at : ℕ → Device → Option Bytes
blob_at offset d =
    if offset == 0 then some d.dev_infos else if offset == 1 then some d.raw_infos else none

unfoldable pub read_blob : Option Bytes → Prec → Bytes → ℕ → Device → Text
read_blob none prec buffer nord d = text_of (caught prec d) buffer nord
read_blob (some blob) prec buffer nord d =
    if not (length blob == 0) && not (ltb (length buffer) (length blob))
    then record {
      status = success;
      prec = prec;
      buffer = blob ++ drop (length blob) buffer;
      nord = length blob;
    }
    else record {
      status = enodev;
      prec = raise comm_alarm invalid_severity prec;
      buffer = buffer;
      nord = nord;
    }

unfoldable pub read_jblob : ℕ → Prec → Bytes → ℕ → Device → Text
read_jblob offset prec buffer nord d =
    if ltb (length buffer) 16
    then text_of (caught prec d) buffer nord
    else read_blob (blob_at offset d) prec buffer nord d

-- MetaInfo
pub record MetaInfo : Type 0 where
  pub regname : Bytes
  pub has_default : Bool
  pub defval : ℕ

unfoldable pub with_default : (Bytes → Option ℕ) → MetaInfo → Option Bytes → Result MetaInfo
with_default parse_uint32 info none = ok (record info { has_default = false })
with_default parse_uint32 info (some text) =
    read_number (runtime_error "Error parsing integer" []) parse_uint32 text >>= λ defval.
    ok (record info { has_default = true; defval = defval })

-- MetaInfo::configure
unfoldable pub configure_meta : (Bytes → Option ℕ) → Pairs → MetaInfo → Result MetaInfo
configure_meta parse_uint32 pairs info =
    with_default parse_uint32 info (lookup (codes "default") pairs)

-- read_metadata, of VAL
unfoldable pub default_meta : MetaInfo → Option ℤ → ℤ → Prec → ℤ × Prec
default_meta info (some v) val prec = (v, prec)
default_meta info none val prec =
    if not info.has_default
    then (val, raise read_alarm invalid_severity prec)
    else (signed32 info.defval, prec)

unfoldable pub read_metadata : MetaInfo → ℤ → Prec → Device → ℤ × Prec
read_metadata info val prec d = default_meta info (lookup info.regname d.info32) val prec
