-- ===== src/Support/Types.antt =====
-- What the device support of src/driver/devreg.cpp works on: a record of EPICS as far as the driver
-- reads and changes it, its RecInfo, and the elements of its buffer.
use feed_core.Prelude.{ℕ, Bool, true, false, List, [], ◌∷◌, ◌++◌, Option, none, some, if◌then◌else◌}
use feed_core.Prelude.Int.{ℤ}
use feed_core.Device.Types.{Stat, comm_alarm, Severity, invalid_severity, Device}
use feed_core.Options.{RecInfo}

-- The arithmetic of double, with the conversions that the code makes.
pub record Doubles : Type 1 where
  pub Double : Type 0
  -- epicsUInt32(x / y)
  pub quotient : Double → Double → ℕ
  -- x * y, for an epicsInt32 or an epicsUInt32 x
  pub product : ℤ → Double → Double
  -- x <= 0
  pub le_zero : Double → Bool

-- menuFtype
pub data Ftype : Type 0 where
  string char uchar short ushort long ulong int64 uint64 float double enum : Ftype

-- The switch in front of both directions.
abbrev pub is_supported : Ftype → Bool
is_supported char = true
is_supported uchar = true
is_supported short = true
is_supported ushort = true
is_supported long = true
is_supported ulong = true
is_supported double = true
is_supported _ = false

-- An element of a buffer: an integer is its bit pattern. The types that no branch touches have no more
-- than that.
abbrev pub Elem : Type 0 → Ftype → Type 0
Elem D double = D
Elem D _ = ℕ

-- What the code posts to the monitors of a record: the value of a field, or the properties.
pub data Post : Type 0 where
  drvl_field lopr_field drvh_field hopr_field : Post
  val_field : ℕ → Post
  property : Post

-- dbCommon. The calls of recGblSetSevr are listed, oldest first.
pub record Prec : Type 0 where
  pub pact : Bool
  pub udf : Bool
  pub io_intr : Bool
  pub device_time : Bool
  pub time : ℕ
  pub alarms : List (Stat × Severity)
  pub posts : List Post

-- RecInfo with its base RegInterest; D is the type of double. The record's own index among the
-- interests is `self`.
pub record Info (D : Type 0) : Type 0 where
  pub options : RecInfo D
  pub size : ℕ
  pub reg : Option ℕ
  pub self : ℕ

-- The values that device support returns: 0, 2 for "do not convert", and the codes of errors, where
-- `failure` is -1.
pub data Status : Type 0 where
  success do_not_convert enodev einval eio failure : Status

-- What a call of device support returns, with the record and the device after it.
pub record Call : Type 0 where
  pub status : Status
  pub prec : Prec
  pub device : Device

abbrev pub raise : Stat → Severity → Prec → Prec
raise stat sevr prec = record prec { alarms = prec.alarms ++ (stat, sevr) ∷ [] }

-- RecInfo::cleanup
abbrev pub cleanup : Prec → Prec
cleanup prec = record prec { pact = false }

-- CATCH
unfoldable pub caught : Prec → Device → Call
caught prec d = record {
  status = success;
  prec = cleanup (raise comm_alarm invalid_severity prec);
  device = d;
}

-- TRY without a RecInfo.
unfoldable pub no_info : Prec → Device → Call
no_info prec d = record {
  status = enodev;
  prec = raise comm_alarm invalid_severity prec;
  device = d;
}

-- The end of both directions, when the register cannot be accessed.
unfoldable pub refused : Stat → Prec → Device → Call
refused stat prec d = record {
  status = enodev;
  prec = raise stat invalid_severity (cleanup prec);
  device = d;
}

abbrev pub waiter : {D : Type 0} → Info D → Option ℕ
waiter info = if info.options.wait then some info.self else none
