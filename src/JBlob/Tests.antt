-- ===== src/JBlob/Tests.antt =====
-- Runs of the JSON callbacks, and the theorems at a small table.
use feed_core.Prelude.{
  ◌-◌, ◌^◌, ◌≡◌, ◌↔◌, ◌⊎◌, refl, false, List, [], ◌∷◌, none, some, Option, arith, Bytes, codes,
  ◌===◌,
}
use feed_core.Prelude.Int.{ℤ, pos, negsuc}
use feed_core.Prelude.Exn.{ok, err, runtime_error}
use feed_core.Prelude.Maps.{insert, bytes_key}
use feed_core.Rom.{until_nul}
use feed_core.JBlob.{
  JRegister, start_map, map_key, end_map, Yajl, cleared, signed, callback, initial, parse,
  parse_buffer, reg_min, reg_max, run, jblob_start_map, jblob_map_key, rethrow, set_integer,
}
use feed_core.JBlob.Valid.{AllUsable, parse-AllUsable}
use feed_core.JBlob.Cancel.{Refused, IsRefusal, callback-Refused, parse_error}
use feed_core.JBlob.Definition.{base_addr, addr_width, access}
use feed_core.JBlob.Document.{RegDef, document, table, parse-document, AllRegNames}
use feed_core.JBlob.Metadata.{metadata_name, document_with_metadata, metadata_table, parse-metadata}
use feed_core.JBlob.Range.{reg_min-reg_max_signed}

abbrev no_int : Bytes → Option ℤ
no_int v = none

abbrev defs : List RegDef
defs =
    record {
      name = codes "ctl";
      attributes = base_addr (pos 16) ∷ addr_width (pos 2) ∷ access (codes "rw") ∷ [];
    }
    ∷ record { name = codes "far"; attributes = base_addr (pos 0x1000000) ∷ [] }
    ∷ []

abbrev yajl : Yajl
yajl = record { events = λ buf. document defs; malformed = λ buf. none }

abbrev yajl_meta : Yajl
yajl_meta = record {
  events = λ buf. document_with_metadata ((codes "v", pos 0x1_0000_0002) ∷ []) defs;
  malformed = λ buf. none;
}

-- Three levels of objects.
abbrev yajl_deep : Yajl
yajl_deep = record {
  events =
      λ buf. start_map ∷ map_key (codes "a") ∷ start_map ∷ map_key (codes "b") ∷ start_map ∷ [];
  malformed = λ buf. none;
}

names : AllRegNames defs
unfolding ◌===◌
names = (
  record { some_char = λ h. cc; plain = refl },
  (record { some_char = λ h. cc; plain = refl }, tt),
)

parse-document_example :
    parse yajl no_int (codes "{}") ≡ ok (record { registers = table [] defs; info32 = [] })
parse-document_example = parse-document yajl no_int (codes "{}") defs refl refl names

parse-AllUsable_example : AllUsable (table [] defs)
parse-AllUsable_example =
    parse-AllUsable yajl no_int (codes "{}") (record { registers = table [] defs; info32 = [] })
      parse-document_example

parse-metadata_example :
    parse yajl_meta no_int (codes "{}")
    ≡ ok (record {
      registers = table (insert metadata_name (record cleared { name = metadata_name }) []) defs;
      info32 = metadata_table [] ((codes "v", pos 0x1_0000_0002) ∷ []);
    })
parse-metadata_example =
    parse-metadata yajl_meta no_int (codes "{}") ((codes "v", pos 0x1_0000_0002) ∷ []) defs refl
      refl ((λ h. cc), tt) names

callback-Refused_example : ((callback no_int initial end_map).1 ≡ false) ↔ Refused 0 end_map
callback-Refused_example = callback-Refused no_int initial end_map

deep_fails :
    parse yajl_deep no_int (codes "{}") ≡ err (runtime_error "Object depth limit (2) exceeded" [])
unfolding parse parse_buffer run callback jblob_start_map jblob_map_key rethrow ◌===◌
deep_fails = refl

parse_error_example :
    (yajl_deep.malformed (until_nul (codes "{}"))
      ≡ some (runtime_error "Object depth limit (2) exceeded" []))
    ⊎ IsRefusal (runtime_error "Object depth limit (2) exceeded" [])
parse_error_example =
    parse_error yajl_deep no_int (codes "{}") (runtime_error "Object depth limit (2) exceeded" [])
      deep_fails

-- A negative width passes the test for its upper bound, and is stored as a byte.
negative_width :
    (set_integer (record initial { param = codes "addr_width" }) (negsuc 0)).scratch.addr_width
    ≡ 255
unfolding set_integer ◌===◌
negative_width = refl

abbrev signed_reg : JRegister
signed_reg = record cleared { sign = signed; data_width = 16 }

signed_range : (reg_min signed_reg ≡ negsuc (2 ^ 15 - 1)) × (reg_max signed_reg ≡ pos (2 ^ 15 - 1))
signed_range = reg_min-reg_max_signed signed_reg refl (omega arith) (omega arith)
