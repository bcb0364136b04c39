-- ===== src/Support/Attach.antt =====
-- init_common_base of src/driver/devutil.cpp: a record finds or creates its device, takes its options,
-- and registers its interest in a register and its signal name. The link of the record is its text.
pub mod Interests
pub mod Registers
use feed_core.Prelude.{
  ℕ, Bool, true, false, List, [], ◌∷◌, ◌++◌, Option, none, some, if◌then◌else◌, length, Bytes,
  codes,
}
use feed_core.Prelude.Exn.{Exn, runtime_error, Result, ok, err, ◌>>=◌}
use feed_core.Prelude.Maps.{lookup, insert, bytes_key}
use feed_core.Device.Types.{Device, DevReg, Interest, reg_at, set_reg}
use feed_core.Device.Reset.{new_device}
use feed_core.Options.{Pairs, RecInfo, split_pairs}
use feed_core.Support.Types.{Info, Status, success, eio}

-- A record with the name of its device and of its signal, which may be empty.
pub record Placed (D : Type 0) : Type 0 where
  pub device : Bytes
  pub signal : Bytes
  pub info : Info D

-- Device::devices, all RecInfo in the order of their creation, and RecInfo::signals.
pub record Database (D : Type 0) : Type 0 where
  pub devices : List (Bytes × Device)
  pub placed : List (Placed D)
  pub signals : List (Bytes × ℕ)

-- What the initialisation of a record makes: the status, DPVT, and the rest.
pub record Attached (D : Type 0) : Type 0 where
  pub status : Status
  pub dpvt : Option ℕ
  pub database : Database D

abbrev omitted : Exn
omitted = runtime_error "Omitted required key name=" []

unfoldable pub with_name : Pairs → Option Bytes → Result (Bytes × Pairs)
with_name pairs none = err omitted
with_name pairs (some name) = ok (name, pairs)

unfoldable pub read_link : Bytes → Result (Bytes × Pairs)
read_link text = split_pairs text [] >>= λ pairs. with_name pairs (lookup (codes "name") pairs)

-- The device of a name; `fresh` is what the constructor makes.
unfoldable pub found_device : Device → Option Device → Device
found_device fresh none = fresh
found_device fresh (some d) = d

-- A bootstrap register is attached at once.
unfoldable pub attach_at : ℕ → Device → Option ℕ → Option ℕ × Device
attach_at self d none = (none, d)
attach_at self d (some p) =
    let r = reg_at d p in
    if r.bootstrap
    then (some p, set_reg d p (record r { interested = r.interested ++ self ∷ [] }))
    else (none, d)

-- The interest of a record in the register of a name, behind those that the device has.
unfoldable pub add_interest : Device → Option Bytes → Option ℕ × Device
add_interest d none = (none, d)
add_interest d (some key) =
    let self = length d.reg_interested in
    let a = attach_at self d (lookup key d.reg_by_name) in
    (
      a.0,
      record a.1 { reg_interested = a.1.reg_interested ++ record { key = key; reg = a.0 } ∷ [] },
    )

-- The name of the signal that the record gets, and the registry.
unfoldable pub claim_free : ℕ → Bytes → List (Bytes × ℕ) → Option ℕ → Bytes × List (Bytes × ℕ)
claim_free i name signals none = (name, insert name i signals)
claim_free i name signals (some owner) = ([], signals)

unfoldable pub claim_signal : ℕ → Option Bytes → List (Bytes × ℕ) → Bytes × List (Bytes × ℕ)
claim_signal i none signals = ([], signals)
claim_signal i (some name) signals = claim_free i name signals (lookup name signals)

-- The device, and the parts of RecInfo that the record type decides: its options without any, and
-- what `configure` makes of them.
module _ {D : Type 0} (fresh : Device) (initial : RecInfo D)
    (configure : Pairs → RecInfo D → Result (RecInfo D)) where
  -- From the options on, for the device d of the name.
  unfoldable pub place : Bytes → Pairs → Device → Database D → RecInfo D → Attached D
  place name pairs d db options =
      let i = length db.placed in
      let a = add_interest d (lookup (codes "reg") pairs) in
      let c = claim_signal i (lookup (codes "signal") pairs) db.signals in
      record {
        status = success;
        dpvt = some i;
        database = record {
          devices = insert name a.1 db.devices;
          placed =
              db.placed
              ++ record {
                device = name;
                signal = c.0;
                info = record {
                  options = options;
                  size = 0;
                  reg = a.0;
                  self = length d.reg_interested;
                };
              }
                ∷ [];
          signals = c.1;
        };
      }

  -- The device is kept when the options cannot be read.
  unfoldable pub placed_or_failed :
      Bytes → Pairs → Device → Database D → Result (RecInfo D) → Attached D
  placed_or_failed name pairs d db (ok options) = place name pairs d db options
  placed_or_failed name pairs d db (err e) = record {
    status = eio;
    dpvt = none;
    database = record db { devices = insert name d db.devices };
  }

  unfoldable pub with_link : Database D → Result (Bytes × Pairs) → Attached D
  with_link db (err e) = record { status = eio; dpvt = none; database = db }
  with_link db (ok link) =
      let d = found_device fresh (lookup link.0 db.devices) in
      placed_or_failed link.0 link.1 d db (configure link.1 initial)

  -- init_common_base. `size` has no value after the constructor; 0 stands for it.
  unfoldable pub init_common_base : Bytes → Database D → Attached D
  init_common_base text db = with_link db (read_link text)
