-- ===== src/Device/Register.antt =====
-- The members of DevReg in device.cpp.
use feed_core.Prelude.{
  ℕ, Bool, true, false, not, ◌&&◌, ◌||◌, List, [], ◌∷◌, ◌++◌, Option, none, some, if◌then◌else◌,
  length, set, get_or, replicate,
}
use feed_core.Prelude.Exn.{runtime_error}
use feed_core.Device.Types.{
  RegState, invalid, in_sync, reading, writing, Device, changed, reg_at, set_reg, Outcome, done,
  throws,
}

-- DevReg::process: the waiting records go to the device, on `cancel` those of queued operations too.
unfoldable pub process : ℕ → Bool → Device → Device
process p cancel d =
    let r = reg_at d p in
    let queued = if cancel then r.records_write ++ r.records_read else [] in
    set_reg (record d { records = d.records ++ (r.records_inprog ++ queued) }) p
      (record r {
        records_inprog = [];
        records_write = if cancel then [] else r.records_write;
        records_read = if cancel then [] else r.records_read;
      })

-- One round of scan_interested; the assignment stands inside its assert.
unfoldable pub scan_one : ℕ → ℕ → Device → Device
scan_one p i d = record d {
  reg_interested =
      set d.reg_interested i
        (record (get_or d.reg_interested i (record { key = []; reg = none })) { reg = some p });
  scans = d.scans ++ changed i ∷ [];
}

unfoldable pub scan_all : ℕ → List ℕ → Device → Device
scan_all p [] d = d
scan_all p (i ∷ is) d = scan_all p is (scan_one p i d)

-- DevReg::scan_interested
unfoldable pub scan_interested : ℕ → Device → Device
scan_interested p d = scan_all p (reg_at d p).interested d

abbrev pub with_action : Option ℕ → List ℕ → List ℕ
with_action none l = l
with_action (some a) l = l ++ a ∷ []

-- The branch of an idle register.
unfoldable pub queue_idle : ℕ → Bool → Option ℕ → Device → Outcome
queue_idle p write action d =
    let r = reg_at d p in
    if (not write && not r.info.readable) || (write && not r.info.writable)
    then throws (runtime_error "Register does not support requested operation" []) d
    else done (
        set_reg (record d { reg_send = d.reg_send ++ p ∷ [] }) p
          (record r {
            received = replicate (length r.received) false;
            nremaining = length r.received;
            next_send = 0;
            state = if write then writing else reading;
            records_inprog = with_action action r.records_inprog;
          }))

-- Flag a queued write, or a queued read.
unfoldable pub flag_write : ℕ → Option ℕ → Device → Device
flag_write p action d =
    let r = reg_at d p in
    set_reg d p
      (record r { records_write = with_action action r.records_write; write_queued = true })

unfoldable pub flag_read : ℕ → Option ℕ → Device → Device
flag_read p action d =
    let r = reg_at d p in
    set_reg d p (record r { records_read = with_action action r.records_read; read_queued = true })

-- A read joins the read in progress.
unfoldable pub join_read : ℕ → Option ℕ → Device → Device
join_read p action d =
    let r = reg_at d p in
    set_reg d p (record r { records_inprog = with_action action r.records_inprog })

-- DevReg::queue. The wake-up of the worker is not modelled.
unfoldable pub queue_in : RegState → ℕ → Bool → Option ℕ → Device → Outcome
queue_in invalid p write action d = queue_idle p write action d
queue_in in_sync p write action d = queue_idle p write action d
queue_in writing p write action d =
    done (if write then flag_write p action d else flag_read p action d)
queue_in reading p write action d =
    done (if write then flag_write p action d else join_read p action d)

unfoldable pub queue : ℕ → Bool → Option ℕ → Device → Outcome
queue p write action d = queue_in (reg_at d p).state p write action d
