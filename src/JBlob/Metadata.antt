-- ===== src/JBlob/Metadata.antt =====
-- The block "__metadata__" and the callbacks.
use feed_core.Prelude.{
  ◌-◌, ◌^◌, ◌≡◌, ◌≢◌, refl, ap, ◌∙◌, true, List, [], ◌∷◌, ◌++◌, none, Option, arith, Bytes, codes,
  ◌===◌,
}
use feed_core.Prelude.Int.{ℤ, to_unsigned, signed32}
use feed_core.Prelude.Exn.{ok}
use feed_core.Prelude.Maps.{insert, bytes_key}
use feed_core.Rom.{until_nul}
use feed_core.JBlob.{
  Context, JBlob, JsonEvent, integer, start_map, map_key, end_map, Yajl, cleared, jblob_integer,
  jblob_start_map, jblob_map_key, jblob_end_map, end_definition, callback, run, parse, parse_buffer,
  initial,
}
use feed_core.JBlob.Document.{
  RegDef, AllRegNames, definitions_events, table, IsReady, run-definitions,
}

abbrev pub metadata_name : Bytes
metadata_name = codes "__metadata__"

pub items_events : List (Bytes × ℤ) → List JsonEvent
items_events [] = []
items_events ((k, v) ∷ kvs) = map_key k ∷ integer v ∷ items_events kvs

-- The metadata block first, and then definitions of registers.
pub document_with_metadata : List (Bytes × ℤ) → List RegDef → List JsonEvent
document_with_metadata kvs ds =
    start_map
    ∷ map_key metadata_name
    ∷ start_map
    ∷ (items_events kvs ++ end_map ∷ (definitions_events ds ++ end_map ∷ []))

pub metadata_table : List (Bytes × ℤ) → List (Bytes × ℤ) → List (Bytes × ℤ)
metadata_table m [] = m
metadata_table m ((k, v) ∷ kvs) =
    metadata_table (insert k (signed32 (to_unsigned (2 ^ 32) v)) m) kvs

abbrev pub NonEmptyKeys : List (Bytes × ℤ) → Type 0
NonEmptyKeys [] = Unit {0}
NonEmptyKeys ((k, v) ∷ kvs) = (k ≢ []) × NonEmptyKeys kvs

with_item : Context → Bytes → ℤ → Context
with_item c k v = record c {
  param = k;
  blob = record c.blob { info32 = insert k (signed32 (to_unsigned (2 ^ 32) v)) c.blob.info32 };
}

with_items : Context → List (Bytes × ℤ) → Context
with_items c [] = c
with_items c ((k, v) ∷ kvs) = with_items (with_item c k v) kvs

-- What the items change: the last key, and info32.
record Itemised (c d : Context) (kvs : List (Bytes × ℤ)) : Type 0 where
  same_registers : d.blob.registers ≡ c.blob.registers
  added : d.blob.info32 ≡ metadata_table c.blob.info32 kvs
  same_name : d.regname ≡ c.regname
  same_depth : d.depth ≡ c.depth
  same_ignore : d.ignore_scratch ≡ c.ignore_scratch
  same_scratch : d.scratch ≡ c.scratch

with_items-Itemised : (c : Context) (kvs : List (Bytes × ℤ)) → Itemised c (with_items c kvs) kvs
unfolding with_items metadata_table with_item
with_items-Itemised c [] = record {
  same_registers = refl;
  added = refl;
  same_name = refl;
  same_depth = refl;
  same_ignore = refl;
  same_scratch = refl;
}
with_items-Itemised c ((k, v) ∷ kvs) =
    let ih = with_items-Itemised (with_item c k v) kvs in
    record {
      same_registers = ih.same_registers;
      added = ih.added;
      same_name = ih.same_name;
      same_depth = ih.same_depth;
      same_ignore = ih.same_ignore;
      same_scratch = ih.same_scratch;
    }

module _ (parse_int32 : Bytes → Option ℤ) where
  run-item :
      (c : Context) (k : Bytes) (v : ℤ) (es : List JsonEvent)
      → c.depth ≡ 2
      → c.in_metadata ≡ true
      → k ≢ []
      → run parse_int32 c (map_key k ∷ integer v ∷ es) ≡ run parse_int32 (with_item c k v) es
  unfolding run callback jblob_map_key jblob_integer with_item
  run-item c [] v es d m n = absurd (n refl)
  run-item c (k ∷ ks) v es d m n = rw (d, m)

  run-items :
      (c : Context) (kvs : List (Bytes × ℤ)) (es : List JsonEvent)
      → c.depth ≡ 2
      → c.in_metadata ≡ true
      → NonEmptyKeys kvs
      → run parse_int32 c (items_events kvs ++ es) ≡ run parse_int32 (with_items c kvs) es
  unfolding items_events with_items
  run-items c [] es d m n = refl
  run-items c ((k, v) ∷ kvs) es d m n =
      run-item c k v (items_events kvs ++ es) d m n.0
      ∙ run-items (with_item c k v) kvs es (unfold with_item in d) (unfold with_item in m) n.1

-- The context between the metadata and the definitions.
opened_metadata : Context
opened_metadata = record initial { depth = 2; regname = metadata_name; in_metadata = true }

closed_metadata : List (Bytes × ℤ) → Context
closed_metadata kvs =
    let a = with_items opened_metadata kvs in record (end_definition a) { depth = a.depth - 1 }

closed_metadata-blob :
    (kvs : List (Bytes × ℤ))
    → (closed_metadata kvs).blob ≡ record {
      registers = insert metadata_name (record cleared { name = metadata_name }) [];
      info32 = metadata_table [] kvs;
    }
unfolding closed_metadata end_definition opened_metadata
closed_metadata-blob kvs =
    let i = with_items-Itemised opened_metadata kvs in
    rw (i.same_ignore, i.same_name, i.same_registers, i.added, i.same_scratch)

closed_metadata-IsReady : (kvs : List (Bytes × ℤ)) → IsReady (closed_metadata kvs)
unfolding closed_metadata end_definition opened_metadata
closed_metadata-IsReady kvs = ground (arith, with_items-Itemised opened_metadata kvs)

module _ (parse_int32 : Bytes → Option ℤ) where
  run-metadata_start :
      (es : List JsonEvent)
      → run parse_int32 initial (start_map ∷ map_key metadata_name ∷ start_map ∷ es)
        ≡ run parse_int32 opened_metadata es
  unfolding run callback jblob_start_map jblob_map_key opened_metadata ◌===◌
  run-metadata_start es = refl

  run-metadata_end :
      (kvs : List (Bytes × ℤ)) (es : List JsonEvent)
      → run parse_int32 (with_items opened_metadata kvs) (end_map ∷ es)
        ≡ run parse_int32 (closed_metadata kvs) es
  unfolding run callback jblob_end_map closed_metadata
  run-metadata_end kvs es =
      let d : (with_items opened_metadata kvs).depth ≡ 2 =
        (with_items-Itemised opened_metadata kvs).same_depth ∙ (unfold opened_metadata in refl) in
      rw d

  run-metadata :
      (kvs : List (Bytes × ℤ)) (ds : List RegDef)
      → NonEmptyKeys kvs
      → run parse_int32 initial (document_with_metadata kvs ds)
        ≡ run parse_int32 (closed_metadata kvs) (definitions_events ds ++ end_map ∷ [])
  unfolding document_with_metadata
  run-metadata kvs ds n =
      run-metadata_start _
      ∙ run-items parse_int32 opened_metadata kvs _ (unfold opened_metadata in refl)
          (unfold opened_metadata in refl) n
      ∙ run-metadata_end kvs _

-- For a text that has a metadata block in front of its register definitions, `parse` returns the
-- metadata's integers, cut to 32 bits, and beside the table of the definitions a register named
-- "__metadata__", cleared but for its name.
pub parse-metadata :
    (yajl : Yajl) (parse_int32 : Bytes → Option ℤ) (buf : Bytes) (kvs : List (Bytes × ℤ))
    (ds : List RegDef)
    → yajl.events (until_nul buf) ≡ document_with_metadata kvs ds
    → yajl.malformed (until_nul buf) ≡ none
    → NonEmptyKeys kvs
    → AllRegNames ds
    → parse yajl parse_int32 buf
      ≡ ok (record {
        registers = table (insert metadata_name (record cleared { name = metadata_name }) []) ds;
        info32 = metadata_table [] kvs;
      })
unfolding parse parse_buffer
parse-metadata yajl parse_int32 buf kvs ds e w m n =
    let same = ap (run parse_int32 initial) e ∙ run-metadata parse_int32 kvs ds m in
    let (going, made) =
      run-definitions parse_int32 (closed_metadata kvs) ds (closed_metadata-IsReady kvs) n in
    let on : (run parse_int32 initial (yajl.events (until_nul buf))).1 ≡ true =
      ap (λ r. r.1) same ∙ going in
    rw (on, w)
      (ap ok (
        ap (λ r. r.0.blob) same
        ∙ made
        ∙ ap {A = JBlob} {B = JBlob} (λ b. record b { registers = table b.registers ds })
            (closed_metadata-blob kvs)))
