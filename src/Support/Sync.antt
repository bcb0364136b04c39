-- ===== src/Support/Sync.antt =====
-- SyncInfo and read_sync of src/driver/devmain.cpp: a record that becomes active until the operation in
-- progress of each register in the send queue has ended.
pub mod Completions
pub mod Finish
use feed_core.Prelude.{
  ℕ, zero, suc, ◌-◌, ◌^◌, ◌%◌, ◌+◌, Bool, true, false, not, ◌&&◌, ◌||◌, List, [], ◌∷◌, ◌++◌,
  if◌then◌else◌, ◌==◌,
}
use feed_core.Prelude.Exn.{assertion, Result, ok, err}
use feed_core.Prelude.Words.{add32}
use feed_core.Device.Types.{
  comm_alarm, invalid_severity, DevState, error, idle, searching, inspecting, running, Device,
  inprogress, active, reg_at, set_reg,
}
use feed_core.Support.Types.{Prec, raise}

-- The record with its SyncInfo, VAL and device; VAL is the bit pattern of an epicsInt32.
pub record Sync : Type 0 where
  pub self : ℕ
  pub wait_for : ℕ
  pub val : ℕ
  pub prec : Prec
  pub device : Device

-- SyncInfo::cleanup
unfoldable pub cleanup_sync : Sync → Sync
cleanup_sync s = record s { wait_for = 0; prec = record s.prec { pact = false } }

-- One round of the loop over the send queue.
unfoldable pub join_reg : ℕ → Sync → Sync
join_reg p s =
    let r = reg_at s.device p in
    record s {
      device = set_reg s.device p (record r { records_inprog = r.records_inprog ++ s.self ∷ [] });
      wait_for = suc s.wait_for;
      prec = record s.prec { pact = true };
    }

unfoldable pub join_all : List ℕ → Sync → Result Sync
join_all [] s = ok s
join_all (p ∷ ps) s =
    let rest = join_all ps (join_reg p s) in
    if inprogress (reg_at s.device p).state then rest else err (assertion "reg->inprogress()")

abbrev pub is_running : DevState → Bool
is_running running = true
is_running error = false
is_running idle = false
is_running searching = false
is_running inspecting = false

-- The completion of the record.
unfoldable pub finish_sync : Sync → Sync
finish_sync s = record s {
  wait_for = 0;
  val = add32 s.val 1;
  prec =
      record (if not (is_running s.device.current) || not (s.wait_for == 0)
        then raise comm_alarm invalid_severity s.prec
        else s.prec) { pact = false };
}

-- read_sync, of a record with a SyncInfo.
unfoldable pub read_sync : Sync → Result Sync
read_sync s =
    if not s.prec.pact && active s.device.current
    then join_all s.device.reg_send (record s { wait_for = 0 })
    else ok (finish_sync s)

-- RecInfo::complete, where `process` is what EPICS makes of a record.
unfoldable pub complete_record : (Sync → Result Sync) → Sync → Result Sync
complete_record process s = if s.prec.pact then process s else ok s

-- SyncInfo::complete. One completion too many is an error that is printed.
unfoldable pub complete : (Sync → Result Sync) → Sync → Result Sync
complete process s =
    if s.wait_for == 0
    then complete_record process s
    else if s.wait_for - 1 == 0
    then complete_record process (record s { wait_for = s.wait_for - 1 })
    else ok (record s { wait_for = s.wait_for - 1 })
