-- ===== src/Support/Write.antt =====
-- The writes of src/driver/devreg.cpp. A buffer is the list of its elements, so that `count` is its length.
use feed_core.Prelude.{
  ℕ, ◌+◌, ◌-◌, ◌%◌, ◌^◌, Bool, true, false, not, ◌&&◌, ◌||◌, List, [], ◌∷◌, Option, none, some,
  if◌then◌else◌, length, set, ltb, leb,
}
use feed_core.Device.Types.{
  write_alarm, DevReg, Device, Outcome, done, throws, active, reg_at, set_reg,
}
use feed_core.Device.Register.{queue}
use feed_core.Support.Types.{
  Doubles, Ftype, char, uchar, short, ushort, long, ulong, double, is_supported, Elem, Prec, Info,
  success, Call, caught, no_info, refused, waiter,
}

-- After the call of DevReg::queue.
unfoldable pub committed : {D : Type 0} → Info D → Prec → Outcome → Call
committed info prec (done d) = record {
  status = success;
  prec = record prec { pact = prec.pact || (info.options.wait && active d.current) };
  device = d;
}
committed info prec (throws e d) = caught prec d

-- The guards in front of a write.
abbrev pub is_writable : {D : Type 0} → Info D → DevReg → ℕ → Bool
is_writable info r count =
    r.info.writable
    && not (leb (length r.mem_tx) info.options.offset)
    && not (ltb (length r.mem_tx - info.options.offset) count)

module _ ⦃F : Doubles⦄ where
  -- The word of an element.
  unfoldable pub load : (t : Ftype) → F.Double → Elem F.Double t → ℕ
  load char scale x = x % 2 ^ 8
  load uchar scale x = x % 2 ^ 8
  load short scale x = x % 2 ^ 16
  load ushort scale x = x % 2 ^ 16
  load long scale x = x % 2 ^ 32
  load ulong scale x = x % 2 ^ 32
  load double scale x = F.quotient x scale % 2 ^ 32
  load _ scale x = 0

  -- The copy from the word i on, where `size` is the size of the register.
  unfoldable pub write_loop :
      (t : Ftype) → F.Double → ℕ → ℕ → ℕ → List (Elem F.Double t) → List ℕ → List ℕ
  write_loop t scale step size i [] mem = mem
  write_loop t scale step size i (x ∷ xs) mem =
      let rest = write_loop t scale step size (i + step) xs (set mem i (load t scale x)) in
      if ltb i size then rest else mem

  unfoldable pub copy_out :
      (t : Ftype) → Info F.Double → ℕ → List (Elem F.Double t) → Device → Device
  copy_out t info p xs d =
      let r = reg_at d p in
      let o = info.options in
      set_reg d p
        (record r { mem_tx = write_loop t o.scale o.step (length r.mem_tx) o.offset xs r.mem_tx })

  unfoldable pub start_write :
      (t : Ftype) → Info F.Double → ℕ → List (Elem F.Double t) → Prec → Device → Call
  start_write t info p xs prec d =
      let d1 = copy_out t info p xs d in
      if info.options.commit
      then committed info prec (queue p true (waiter info) d1)
      else record { status = success; prec = prec; device = d1 }

  unfoldable pub write_attached :
      (t : Ftype) → Info F.Double → List (Elem F.Double t) → Prec → Device → Option ℕ → Call
  write_attached t info xs prec d none = refused write_alarm prec d
  write_attached t info xs prec d (some p) =
      if not (is_writable info (reg_at d p) (length xs))
      then refused write_alarm prec d
      else if prec.pact
      then record { status = success; prec = record prec { pact = false }; device = d }
      else start_write t info p xs prec d

  unfoldable pub write_register_common :
      (t : Ftype) → List (Elem F.Double t) → Option (Info F.Double) → Prec → Device → Call
  write_register_common t xs none prec d = no_info prec d
  write_register_common t xs (some info) prec d =
      if is_supported t then write_attached t info xs prec d info.reg else caught prec d

  -- The records of one value, VAL or RVAL.
  unfoldable pub write_register_lo : ℕ → Option (Info F.Double) → Prec → Device → Call
  write_register_lo val = write_register_common long (val ∷ [])

  unfoldable pub write_register_ao : ℕ → Option (Info F.Double) → Prec → Device → Call
  write_register_ao rval = write_register_common long (rval ∷ [])

  unfoldable pub write_register_bo : ℕ → Option (Info F.Double) → Prec → Device → Call
  write_register_bo rval = write_register_common ulong (rval ∷ [])

  unfoldable pub write_register_mbbo : ℕ → Option (Info F.Double) → Prec → Device → Call
  write_register_mbbo rval = write_register_common ulong (rval ∷ [])

  unfoldable pub write_register_aao :
      (t : Ftype) → List (Elem F.Double t) → Option (Info F.Double) → Prec → Device → Call
  write_register_aao ftvl bptr = write_register_common ftvl bptr

  unfoldable pub flush_register_bo : Option (Info F.Double) → Prec → Device → Call
  flush_register_bo = write_register_common ulong []
