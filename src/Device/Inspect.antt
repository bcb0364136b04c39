-- ===== src/Device/Inspect.antt =====
-- Device::handle_inspect: the ROM is parsed, and its registers are created and attached.
use feed_core.Prelude.{
  ℕ, ◌+◌, Bool, true, false, List, [], ◌∷◌, ◌++◌, Option, none, some, if◌then◌else◌, length, Bytes,
  codes, ◌===◌,
}
use feed_core.Prelude.Int.{ℤ}
use feed_core.Prelude.Exn.{runtime_error, Result, ok, err}
use feed_core.Prelude.Words.{be_bytes}
use feed_core.Prelude.Maps.{lookup, insert, bytes_key}
use feed_core.Rom
use feed_core.Rom.{Codec, RomDescriptor, DescType, invalid, text, big_int, json}
use feed_core.JBlob
use feed_core.JBlob.{JBlob, JRegister, Yajl}
use feed_core.Device.Types.{
  Device, Interest, in_key_order, new_reg, reg_at, reg_rom2, reg_rom16, Outcome, done, throws,
}

abbrev pub or_else : Bytes → Bytes → Bytes
or_else [] new = new
or_else (c ∷ cs) new = c ∷ cs

-- The switch over the descriptors: the device, and the JSON text found so far.
unfoldable pub read_descriptor : RomDescriptor → Device × Bytes → Device × Bytes
read_descriptor desc (d, found) = elim desc.type [
  | invalid ↦ (d, found)
  | text ↦ (record d { description = or_else d.description desc.value }, found)
  | big_int ↦ elim d.jsonhash [
    | [] ↦ (record d { jsonhash = desc.value }, found)
    | c ∷ cs ↦ (record d { codehash = or_else d.codehash desc.value }, found)
  ]
  | json ↦ (d, or_else found desc.value)
]

unfoldable pub read_descriptors : List RomDescriptor → Device × Bytes → Device × Bytes
read_descriptors [] s = s
read_descriptors (x ∷ xs) s = read_descriptors xs (read_descriptor x s)

-- The numbers, from i on, of the interests in a name: equal_range.
unfoldable pub interested_in : Bytes → ℕ → List Interest → List ℕ
interested_in name i [] = []
interested_in name i (x ∷ xs) =
    let more = interested_in name (i + 1) xs in if x.key === name then i ∷ more else more

unfoldable pub attach : Bytes → ℕ → List Interest → List Interest
attach name p [] = []
attach name p (x ∷ xs) =
    (if x.key === name then record x { reg = some p } else x) ∷ attach name p xs

-- One register of the blob. A name that is taken, by a bootstrap register, is passed over.
unfoldable pub add_register : JRegister → Device → Device
add_register info d = elim (lookup info.name d.reg_by_name) [
  | some p ↦ d
  | none ↦ record d {
    regs =
        d.regs
        ++ record (new_reg info false) { interested = interested_in info.name 0 d.reg_interested }
          ∷ [];
    reg_interested = attach info.name (length d.regs) d.reg_interested;
    reg_by_name = insert info.name (length d.regs) d.reg_by_name;
  }
]

unfoldable pub add_registers : List (Bytes × JRegister) → Device → Device
add_registers [] d = d
add_registers ((k, info) ∷ m) d = add_registers m (add_register info d)

-- The text of dev_infos. Item values are JSON already.
unfoldable pub print_items : Bool → List (Bytes × Bytes) → Bytes
print_items first [] = []
print_items first ((k, v) ∷ items) =
    (if first then [] else codes ",")
    ++ (codes "\"" ++ (k ++ (codes "\": " ++ (v ++ print_items false items))))

unfoldable pub print_records : Bool → List (Bytes × List (Bytes × Bytes)) → Bytes
print_records first [] = []
print_records first ((k, items) ∷ infos) =
    (if first then [] else codes ",")
    ++ (codes "\""
        ++ (k
            ++ (codes "\": {"
                ++ (print_items true items ++ (codes "}" ++ print_records false infos)))))

unfoldable pub print_infos : Bytes → List (Bytes × List (Bytes × Bytes)) → Bytes
print_infos peer infos =
    codes "{\"peer\": \""
    ++ (peer ++ (codes "\",\"records\": {" ++ (print_records true infos ++ codes "}}")))

-- The virtual calls into the records: what getInfo collects, and what connected does.
pub record Records : Type 0 where
  pub get_info : Device → List (Bytes × List (Bytes × Bytes))
  pub connected : ℕ → Device → Device
  pub complete : ℕ → Device → Outcome

module _ (codec : Codec) (yajl : Yajl) (parse_int32 : Bytes → Option ℤ) (records : Records) where
  -- The ROM at 0x800, or the one at 0x4000 if that has no descriptor.
  unfoldable pub find_rom : Device → Result (List RomDescriptor)
  find_rom d = elim (Rom.parse codec true (be_bytes (reg_at d reg_rom2).mem_rx)) [
    | err e ↦ err e
    | ok [] ↦ Rom.parse codec true (be_bytes (reg_at d reg_rom16).mem_rx)
    | ok (x ∷ xs) ↦ ok (x ∷ xs)
  ]

  unfoldable pub connect_all : List (ℕ × Interest) → Device → Device
  connect_all [] d = d
  connect_all ((i, x) ∷ xs) d =
      connect_all xs (elim x.reg [ none ↦ d | some p ↦ records.connected i d ])

  -- From the blob on.
  unfoldable pub install : JBlob → Bytes → Device → Outcome
  install blob found d0 = elim (codec.zdeflate found) [
    | err e ↦ throws e (record d0 { info32 = blob.info32 })
    | ok raw ↦
        let d =
          add_registers blob.registers (record d0 { info32 = blob.info32; raw_infos = raw }) in
        elim (codec.zdeflate (print_infos d.peer_name (records.get_info d))) [
          | err e ↦ throws e (record d { dev_infos = [] })
          | ok infos ↦
              done
                (connect_all (in_key_order 0 d.reg_interested []) (record d { dev_infos = infos }))
        ]
  ]

  abbrev pub is_empty : Bytes → Bool
  is_empty [] = true
  is_empty (c ∷ cs) = false

  unfoldable pub inspect_rom : List RomDescriptor → Device → Outcome
  inspect_rom rom d0 =
      let r = read_descriptors rom (d0, []) in
      if is_empty r.1
      then throws (runtime_error "ROM contains no JSON" []) r.0
      else elim (JBlob.parse yajl parse_int32 r.1) [
        | err e ↦ throws e r.0
        | ok blob ↦ install blob r.1 r.0
      ]

  -- Device::handle_inspect
  unfoldable pub handle_inspect : Device → Outcome
  handle_inspect d = elim (find_rom d) [ err e ↦ throws e d | ok rom ↦ inspect_rom rom d ]
