-- ===== src/JBlob/Valid.antt =====
-- The addresses and widths of the registers that the JSON callbacks store.
use feed_core.Prelude.{◌^◌, ◌<◌, ◌≡◌, refl, List, [], ◌∷◌, Option, arith, Bytes}
use feed_core.Prelude.Int.{ℤ, to_unsigned-lt}
use feed_core.Prelude.Exn.{ok}
use feed_core.Prelude.Maps.{AllValues, insert-AllValues, bytes_key}
use feed_core.Rom.{until_nul}
use feed_core.JBlob.{
  JRegister, Context, JBlob, JsonEvent, null, boolean, integer, double, string, start_map, map_key,
  end_map, Yajl, cleared, set_integer, jblob_integer, jblob_string, jblob_start_map, jblob_map_key,
  jblob_end_map, end_definition, callback, run, parse, parse_buffer, initial,
}

pub record IsUsable (r : JRegister) : Type 0 where
  pub addr_fits : r.base_addr < 2 ^ 24
  pub addr_width_fits : r.addr_width < 256
  pub data_width_fits : r.data_width < 256

-- The entry of a register table.
pub record IsEntry (k : Bytes) (r : JRegister) : Type 0 where
  pub named : r.name ≡ k
  pub usable : IsUsable r

abbrev pub AllUsable : List (Bytes × JRegister) → Type 0
AllUsable = AllValues IsEntry

pub record IsValid (c : Context) : Type 0 where
  pub table : AllUsable c.blob.registers
  pub scratch_usable : IsUsable c.scratch

set_integer-IsValid : (c : Context) (v : ℤ) → IsValid c → IsValid (set_integer c v)
unfolding set_integer
set_integer-IsValid c v h = record {
  table = ground (arith, h.table);
  scratch_usable = record {
    addr_fits = ground arith;
    addr_width_fits = ground (arith, to_unsigned-lt 256 v);
    data_width_fits = ground (arith, to_unsigned-lt 256 v);
  };
}

jblob_integer-IsValid : (c : Context) (v : ℤ) → IsValid c → IsValid (jblob_integer c v)
unfolding jblob_integer
jblob_integer-IsValid c v h = ground (arith, set_integer-IsValid c v h)

cleared-IsUsable : IsUsable cleared
cleared-IsUsable = omega arith

start_map-IsValid : (c : Context) → IsValid c → IsValid (jblob_start_map c).0
unfolding jblob_start_map
start_map-IsValid c h = ground arith

map_key-IsValid : (c : Context) (k : Bytes) → IsValid c → IsValid (jblob_map_key c k).0
unfolding jblob_map_key
map_key-IsValid c [] h = ground arith
map_key-IsValid c (k ∷ ks) h = ground arith

end_definition-IsValid : (c : Context) → IsValid c → IsValid (end_definition c)
unfolding end_definition
end_definition-IsValid c h = record {
  table = ground (
    arith,
    insert-AllValues IsEntry c.regname (record c.scratch { name = c.regname }) c.blob.registers
        (record { named = refl; usable = ground arith }),
  );
  scratch_usable = ground (arith, cleared-IsUsable);
}

end_map-IsValid : (c : Context) → IsValid c → IsValid (jblob_end_map c).0
unfolding jblob_end_map
end_map-IsValid c h = ground (arith, end_definition-IsValid c h)

module _ (parse_int32 : Bytes → Option ℤ) where
  jblob_string-IsValid :
      (c : Context) (v : Bytes) → IsValid c → IsValid (jblob_string parse_int32 c v)
  unfolding jblob_string
  jblob_string-IsValid c v h = grind (arith, jblob_integer-IsValid)

  -- Every callback keeps the stored registers and the one being read usable, and each stored register
  -- under its own name.
  pub callback-IsValid :
      (c : Context) (e : JsonEvent) → IsValid c → IsValid (callback parse_int32 c e).0
  unfolding callback
  callback-IsValid c null h = h
  callback-IsValid c (boolean b) h = h
  callback-IsValid c (integer v) h = jblob_integer-IsValid c v h
  callback-IsValid c double h = h
  callback-IsValid c (string v) h = jblob_string-IsValid c v h
  callback-IsValid c start_map h = start_map-IsValid c h
  callback-IsValid c (map_key k) h = map_key-IsValid c k h
  callback-IsValid c end_map h = end_map-IsValid c h

  run-IsValid : (c : Context) (es : List JsonEvent) → IsValid c → IsValid (run parse_int32 c es).0
  unfolding run
  run-IsValid c [] h = h
  run-IsValid c (e ∷ es) h =
      let h' = callback-IsValid c e h in
      ground (arith, run-IsValid (callback parse_int32 c e).0 es h')

initial-IsValid : IsValid initial
initial-IsValid = record { table = tt; scratch_usable = omega arith }

-- Whatever callbacks yajl makes, a blob that `parse` returns holds each register under its own name,
-- with an address of at most 24 bits and widths that fit a byte.
pub parse-AllUsable :
    (yajl : Yajl) (parse_int32 : Bytes → Option ℤ) (buf : Bytes) (b : JBlob)
    → parse yajl parse_int32 buf ≡ ok b
    → AllUsable b.registers
unfolding parse parse_buffer
parse-AllUsable yajl parse_int32 buf b e =
    ground (arith, run-IsValid parse_int32 initial (yajl.events (until_nul buf)) initial-IsValid)
