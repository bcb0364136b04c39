-- ===== src/Support/Read.antt =====
-- The reads of src/driver/devreg.cpp. The caller gives the number of elements with the buffer, or no
-- number for a buffer of one value.
use feed_core.Prelude.{
  ℕ, zero, suc, ◌+◌, ◌-◌, ◌*◌, ◌%◌, ◌^◌, Bool, true, false, not, ◌&&◌, ◌||◌, List, [], ◌∷◌, Option,
  none, some, if◌then◌else◌, length, get_or, ltb, leb, ◌==◌, map,
}
use feed_core.Prelude.Int.{pos, signed32}
use feed_core.Prelude.Bits.{land, lor}
use feed_core.JBlob.{unsigned, signed}
use feed_core.Device.Types.{read_alarm, DevReg, Device, Outcome, done, throws, active, reg_at}
use feed_core.Device.Register.{queue}
use feed_core.Support.Types.{
  Doubles, Ftype, char, uchar, short, ushort, long, ulong, double, is_supported, Elem, Prec, Info,
  success, Call, raise, caught, no_info, refused, waiter,
}

-- `mask` of the sign bit and higher, for a width of 1 to 32 bits.
abbrev pub signmask : DevReg → ℕ
signmask r = elim r.info.sign [
  | signed ↦ 0xffffffff * 2 ^ (r.info.data_width - 1) % 2 ^ 32
  | unsigned ↦ 0
]

unfoldable pub extended : ℕ → ℕ → ℕ
extended mask val = if land 32 val mask == 0 then val else lor 32 val mask

-- What the read made of the buffer, and of the caller's count.
pub record ReadCall (E : Type 0) : Type 0 where
  pub call : Call
  pub values : List E
  pub count : ℕ

-- The memory that an option selects.
abbrev pub source_of : {D : Type 0} → Info D → DevReg → List ℕ
source_of info r = if info.options.rbv then r.mem_tx else r.mem_rx

abbrev pub is_allowed : {D : Type 0} → Info D → DevReg → Bool
is_allowed info r =
    not (not info.options.rbv && not r.info.readable)
    && not (info.options.rbv && not r.info.writable)
    && not (leb (length (source_of info r)) info.options.offset)

-- The number of words that an array takes from the register.
abbrev pub read_size : {D : Type 0} → Bool → Info D → ℕ → ℕ
read_size array info size =
    if array && ltb 0 info.size && ltb info.size size then info.size else size

-- I/O Intr scan, use cached, async completion, or no comm.
abbrev pub is_cached : {D : Type 0} → Info D → Prec → Device → Bool
is_cached info prec d = prec.io_intr || not info.options.wait || prec.pact || not (active d.current)

-- The time and the alarm of the register go to the record.
unfoldable pub stamped : DevReg → Prec → Prec
stamped r prec =
    raise r.stat r.sevr
      (record prec { pact = false; time = if prec.device_time then r.rx else prec.time })

-- The start of a read.
unfoldable pub begun : Prec → Outcome → Call
begun prec (done d) = record { status = success; prec = record prec { pact = true }; device = d }
begun prec (throws e d) = caught prec d

abbrev pub returns : Outcome → Bool
returns (done d) = true
returns (throws e d) = false

-- (out - raw) / valsize, after the copy.
unfoldable pub read_count : ℕ → ℕ → ℕ → ℕ → ℕ
read_count step size i zero = 0
read_count step size i (suc n) =
    let rest = read_count step size (i + step) n in if ltb i size then suc rest else 0

module _ ⦃F : Doubles⦄ where
  -- An element for the word `val`, already extended.
  unfoldable pub store : (t : Ftype) → ℕ → F.Double → ℕ → Elem F.Double t → Elem F.Double t
  store char mask scale val old = val % 2 ^ 8
  store uchar mask scale val old = val % 2 ^ 8
  store short mask scale val old = val % 2 ^ 16
  store ushort mask scale val old = val % 2 ^ 16
  store long mask scale val old = val
  store ulong mask scale val old = val
  store double mask scale val old = F.product (if mask == 0 then pos val else signed32 val) scale
  store _ mask scale val old = old

  -- The copy from the word i on into the buffer.
  unfoldable pub read_loop :
      (t : Ftype)
      → ℕ
      → F.Double
      → ℕ
      → ℕ
      → List ℕ
      → ℕ
      → List (Elem F.Double t)
      → List (Elem F.Double t)
  read_loop t mask scale step size mem i [] = []
  read_loop t mask scale step size mem i (x ∷ xs) =
      let rest = read_loop t mask scale step size mem (i + step) xs in
      if ltb i size then store t mask scale (extended mask (get_or mem i 0)) x ∷ rest else x ∷ xs

  unfoldable pub copy_in :
      (t : Ftype)
      → Bool
      → Info F.Double
      → DevReg
      → List (Elem F.Double t)
      → Prec
      → Device
      → ReadCall (Elem F.Double t)
  copy_in t array info r xs prec d =
      let o = info.options in
      let mem = source_of info r in
      let size = read_size array info (length mem) in
      record {
        call = record { status = success; prec = stamped r prec; device = d };
        values = read_loop t (signmask r) o.scale o.step size mem o.offset xs;
        count = read_count o.step size o.offset (length xs);
      }

  unfoldable pub begin_read :
      (t : Ftype)
      → Info F.Double
      → ℕ
      → List (Elem F.Double t)
      → Prec
      → Device
      → ReadCall (Elem F.Double t)
  begin_read t info p xs prec d =
      let q = queue p false (waiter info) d in
      record { call = begun prec q; values = xs; count = if returns q then 0 else length xs }

  unfoldable pub read_attached :
      (t : Ftype)
      → Bool
      → Info F.Double
      → List (Elem F.Double t)
      → Prec
      → Device
      → Option ℕ
      → ReadCall (Elem F.Double t)
  read_attached t array info xs prec d none = record {
    call = refused read_alarm prec d;
    values = xs;
    count = length xs;
  }
  read_attached t array info xs prec d (some p) =
      if not (is_allowed info (reg_at d p))
      then record { call = refused read_alarm prec d; values = xs; count = length xs }
      else if is_cached info prec d
      then copy_in t array info (reg_at d p) xs prec d
      else begin_read t info p xs prec d

  unfoldable pub read_register_common :
      (t : Ftype)
      → Bool
      → List (Elem F.Double t)
      → Option (Info F.Double)
      → Prec
      → Device
      → ReadCall (Elem F.Double t)
  read_register_common t array xs none prec d = record {
    call = no_info prec d;
    values = xs;
    count = length xs;
  }
  read_register_common t array xs (some info) prec d =
      if is_supported t
      then read_attached t array info xs prec d info.reg
      else record { call = caught prec d; values = xs; count = length xs }

  -- The records of one value. The list of values keeps its one element.
  unfoldable pub read_register_li : ℕ → Option (Info F.Double) → Prec → Device → ReadCall ℕ
  read_register_li val = read_register_common long false (val ∷ [])

  unfoldable pub read_register_ai : ℕ → Option (Info F.Double) → Prec → Device → ReadCall ℕ
  read_register_ai rval = read_register_common long false (rval ∷ [])

  unfoldable pub read_register_bi : ℕ → ℕ → Option (Info F.Double) → Prec → Device → ReadCall ℕ
  read_register_bi mask rval info prec d =
      let c = read_register_common ulong false (rval ∷ []) info prec d in
      if mask == 0 then c else record c { values = map (λ v. land 32 v mask) c.values }

  unfoldable pub read_register_mbbi : ℕ → Option (Info F.Double) → Prec → Device → ReadCall ℕ
  read_register_mbbi rval = read_register_common ulong false (rval ∷ [])

  -- The count becomes NORD.
  unfoldable pub read_register_aai :
      (t : Ftype)
      → List (Elem F.Double t)
      → Option (Info F.Double)
      → Prec
      → Device
      → ReadCall (Elem F.Double t)
  read_register_aai ftvl bptr = read_register_common ftvl true bptr
