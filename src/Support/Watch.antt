-- ===== src/Support/Watch.antt =====
-- src/driver/devwatch.cpp: a record that stays active until a word of a register, under a mask, has a
-- value. The timer of EPICS is the delay of the request that is pending, if one is.
pub mod Tended
pub mod Ends
use feed_core.Prelude.{
  ℕ, Bool, true, false, not, ◌||◌, Option, none, some, if◌then◌else◌, length, get_or, leb, ◌==◌,
  Bytes, codes,
}
use feed_core.Prelude.Exn.{Result, ok, ◌>>=◌}
use feed_core.Prelude.Bits.{land}
use feed_core.Device.Types.{
  comm_alarm, read_alarm, invalid_severity, DevReg, Device, Outcome, done, throws, reg_at,
}
use feed_core.Device.Register.{queue}
use feed_core.Device.Worker.{is_in_sync}
use feed_core.Options.{Pairs, RecInfo, get_uint32, get_double}
use feed_core.Support.Types.{Prec, Info, Status, success, enodev, raise}

-- WaitInfo
pub record WaitInfo (D : Type 0) : Type 0 where
  pub base : Info D
  pub mask : ℕ
  pub value : ℕ
  pub retry : D
  pub cb_inprogress : Bool

-- A watch with the device, the record and its timer.
pub record Watch (D : Type 0) : Type 0 where
  pub wait : WaitInfo D
  pub prec : Prec
  pub device : Device
  pub timer : Option D

-- WaitInfo::WaitInfo
unfoldable pub new_wait : {D : Type 0} → D → Info D → WaitInfo D
new_wait one base = record { base = base; mask = 0; value = 1; retry = one; cb_inprogress = false }

-- WaitInfo::configure, with RecInfo::configure as an argument.
unfoldable pub configure_wait :
    (D : Type 0)
    → D
    → (Bytes → Option ℕ)
    → (Bytes → Option D)
    → (Pairs → RecInfo D → Result (RecInfo D))
    → Pairs
    → WaitInfo D
    → Result (WaitInfo D)
configure_wait D one parse_uint32 parse_double configure pairs w =
    configure pairs w.base.options >>= λ options.
    get_uint32 D one parse_uint32 parse_double pairs (codes "mask") w.mask >>= λ mask.
    get_uint32 D one parse_uint32 parse_double pairs (codes "value") w.value >>= λ value.
    get_double D one parse_uint32 parse_double pairs (codes "retry") w.retry >>= λ retry.
    ok (record w {
      base = record w.base { options = options };
      mask = mask;
      value = value;
      retry = retry;
    })

module _ {D : Type 0} where
  -- WaitInfo::cleanup
  unfoldable pub cleanup_watch : Watch D → Watch D
  cleanup_watch w = record w {
    prec = record w.prec { pact = false };
    timer = if w.wait.cb_inprogress then none else w.timer;
    wait = record w.wait { cb_inprogress = false };
  }

  -- RecInfo::complete, where `process` is what EPICS makes of a record.
  unfoldable pub complete_record : (Watch D → Watch D) → Watch D → Watch D
  complete_record process w = if w.prec.pact then process w else w

  -- The branch of a successful reply.
  unfoldable pub test_word : (Watch D → Watch D) → Watch D → DevReg → Watch D
  test_word process w r =
      let val = get_or r.mem_rx w.wait.base.options.offset 0 in
      if land 32 val w.wait.mask == w.wait.value
      then complete_record process w
      else record w { timer = some w.wait.retry; wait = record w.wait { cb_inprogress = true } }

  -- WaitInfo::complete
  unfoldable pub complete_at : (Watch D → Watch D) → Watch D → Option ℕ → Watch D
  complete_at process w none = complete_record process w
  complete_at process w (some p) =
      let r = reg_at w.device p in
      if is_in_sync r.state then test_word process w r else complete_record process w

  unfoldable pub complete : (Watch D → Watch D) → Watch D → Watch D
  complete process w = complete_at process w w.wait.base.reg

  -- The end of expire: what done() throws is only printed.
  unfoldable pub requeued : Watch D → Outcome → Watch D
  requeued w (done d) = record w { device = d }
  requeued w (throws e d) = record w { device = d }

  -- WaitInfo::done
  unfoldable pub retry_at : Watch D → Option ℕ → Watch D
  retry_at w none = w
  retry_at w (some p) = requeued w (queue p false (some w.wait.base.self) w.device)

  -- WaitInfo::expire, which the timer calls when it is no longer pending.
  unfoldable pub expire : Watch D → Watch D
  expire w = retry_at (record w { timer = none }) w.wait.base.reg

  -- After the call of DevReg::queue.
  unfoldable pub started : Watch D → Outcome → Watch D
  started w (done d) = record w { device = d; prec = record w.prec { pact = true } }
  started w (throws e d) =
      cleanup_watch (record w { device = d; prec = raise comm_alarm invalid_severity w.prec })

  unfoldable pub refuse_watch : Watch D → Status × Watch D
  refuse_watch w =
      let w1 = cleanup_watch w in
      (enodev, record w1 { prec = raise read_alarm invalid_severity w1.prec })

  unfoldable pub test_mask_at : Watch D → Option ℕ → Status × Watch D
  test_mask_at w none = refuse_watch w
  test_mask_at w (some p) =
      let r = reg_at w.device p in
      if not r.info.readable || leb (length r.mem_rx) w.wait.base.options.offset
      then refuse_watch w
      else (
        success,
        if w.prec.pact
            then record w { prec = record w.prec { pact = false } }
            else started w (queue p false (some w.wait.base.self) w.device),
      )

  -- write_test_mask, of a record with a WaitInfo.
  unfoldable pub write_test_mask : Watch D → Status × Watch D
  write_test_mask w = test_mask_at w w.wait.base.reg

  -- What EPICS makes of the record: its device support, without the status.
  abbrev pub process : Watch D → Watch D
  process w = (write_test_mask w).1
