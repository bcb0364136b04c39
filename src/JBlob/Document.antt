-- ===== src/JBlob/Document.antt =====
-- A whole document of register definitions, and the metadata block.
use feed_core.Prelude.{
  ◌-◌, ◌≡◌, ◌≢◌, refl, ap, ◌∙◌, Bool, true, false, not, List, [], ◌∷◌, ◌++◌, append_assoc, Option,
  none, arith, ◌===◌, if◌then◌else◌, Bytes, codes,
}
use feed_core.Prelude.Int.{ℤ}
use feed_core.Prelude.Exn.{ok}
use feed_core.Prelude.Maps.{insert, bytes_key}
use feed_core.Rom.{until_nul}
use feed_core.JBlob.{
  JRegister, Context, JBlob, JsonEvent, start_map, map_key, end_map, Yajl, cleared, jblob_start_map,
  jblob_map_key, jblob_end_map, end_definition, callback, run, parse, parse_buffer, initial,
}
use feed_core.JBlob.Definition.{
  Attribute, all_events, after_all, all_in_range, described, after_all-Described, run-all,
}

pub record RegDef : Type 0 where
  pub name : Bytes
  pub attributes : List Attribute

-- A key that is not empty and does not open the metadata.
pub record IsRegName (name : Bytes) : Type 0 where
  pub some_char : name ≢ []
  pub plain : (name === codes "__metadata__") ≡ false

pub definition_events : RegDef → List JsonEvent
definition_events d = map_key d.name ∷ start_map ∷ (all_events d.attributes ++ end_map ∷ [])

-- A definition with an attribute out of range is dropped; a later one replaces an earlier one.
pub store : List (Bytes × JRegister) → RegDef → List (Bytes × JRegister)
store regs d =
    if all_in_range d.attributes
    then insert d.name (record (described cleared d.attributes) { name = d.name }) regs
    else regs

-- Between two definitions.
pub record IsReady (c : Context) : Type 0 where
  pub outer : c.depth ≡ 1
  pub plain : c.in_metadata ≡ false
  pub fresh : c.scratch ≡ cleared

opened : Context → Bytes → Context
opened c name = record c { regname = name; depth = 2; ignore_scratch = false }

closed : Context → List Attribute → Context
closed c attrs = let a = after_all c attrs in record (end_definition a) { depth = a.depth - 1 }

end_definition-store :
    (a : Context) (good : Bool) (n : Bytes) (b : JBlob) (s : JRegister)
    → a.ignore_scratch ≡ not good
    → a.blob ≡ b
    → a.regname ≡ n
    → (good ≡ true → a.scratch ≡ s)
    → (end_definition a).blob ≡ record b {
      registers = if good then insert n (record s { name = n }) b.registers else b.registers;
    }
unfolding end_definition
end_definition-store a true n b s g e f h = rw (g, e, f, h refl)
end_definition-store a false n b s g e f h = rw (g, e)

module _ (parse_int32 : Bytes → Option ℤ) where
  run-opened :
      (c : Context) (name : Bytes) (es : List JsonEvent)
      → IsReady c
      → IsRegName name
      → run parse_int32 c (map_key name ∷ start_map ∷ es) ≡ run parse_int32 (opened c name) es
  unfolding run callback jblob_map_key jblob_start_map opened
  run-opened c [] es r n = absurd (n.some_char refl)
  run-opened c (k ∷ ks) es r n = rw (r.outer, n.plain)

  run-closed :
      (c : Context) (attrs : List Attribute) (es : List JsonEvent)
      → c.depth ≡ 2
      → run parse_int32 (after_all c attrs) (end_map ∷ es) ≡ run parse_int32 (closed c attrs) es
  unfolding run callback jblob_end_map closed
  run-closed c attrs es d =
      let d' : (after_all c attrs).depth ≡ 2 = (after_all-Described c attrs).same_depth ∙ d in rw d'

  run-definition :
      (c : Context) (d : RegDef) (es : List JsonEvent)
      → IsReady c
      → IsRegName d.name
      → run parse_int32 c (definition_events d ++ es)
        ≡ run parse_int32 (closed (opened c d.name) d.attributes) es
  unfolding definition_events
  run-definition c d es r n = rw (append_assoc (all_events d.attributes) (end_map ∷ []) es) (
      run-opened c d.name _ r n
      ∙ run-all parse_int32 (opened c d.name) d.attributes (end_map ∷ es) (unfold opened in refl)
          (unfold opened in r.plain)
      ∙ run-closed (opened c d.name) d.attributes es (unfold opened in refl))

closed-IsReady :
    (c : Context) (d : RegDef) → IsReady c → IsReady (closed (opened c d.name) d.attributes)
unfolding closed end_definition opened
closed-IsReady c d r = ground (arith, after_all-Described (opened c d.name) d.attributes)

closed-store :
    (c : Context) (d : RegDef)
    → IsReady c
    → (closed (opened c d.name) d.attributes).blob
      ≡ record c.blob { registers = store c.blob.registers d }
unfolding closed opened store
closed-store c d r =
    let a = after_all-Described (opened c d.name) d.attributes in
    end_definition-store (after_all (opened c d.name) d.attributes) (all_in_range d.attributes)
      d.name c.blob (described cleared d.attributes) (ground (arith, a.dropped)) a.same_blob
      a.same_name (λ h. a.read h ∙ ap (λ t. described t d.attributes) r.fresh)

pub definitions_events : List RegDef → List JsonEvent
definitions_events [] = []
definitions_events (d ∷ ds) = definition_events d ++ definitions_events ds

-- An object with one member object for each register.
pub document : List RegDef → List JsonEvent
document ds = start_map ∷ (definitions_events ds ++ end_map ∷ [])

pub table : List (Bytes × JRegister) → List RegDef → List (Bytes × JRegister)
table regs [] = regs
table regs (d ∷ ds) = table (store regs d) ds

abbrev pub AllRegNames : List RegDef → Type 0
AllRegNames [] = Unit {0}
AllRegNames (d ∷ ds) = IsRegName d.name × AllRegNames ds

run-end :
    (parse_int32 : Bytes → Option ℤ) (c : Context)
    → c.depth ≡ 1
    → run parse_int32 c (end_map ∷ []) ≡ (record c { depth = c.depth - 1 }, true)
unfolding run callback jblob_end_map
run-end parse_int32 c d = rw d

pub run-definitions :
    (parse_int32 : Bytes → Option ℤ) (c : Context) (ds : List RegDef)
    → IsReady c
    → AllRegNames ds
    → let r = run parse_int32 c (definitions_events ds ++ end_map ∷ []) in
      (r.1 ≡ true) × (r.0.blob ≡ record c.blob { registers = table c.blob.registers ds })
unfolding definitions_events table
run-definitions parse_int32 c [] r n =
    let last = run-end parse_int32 c r.outer in (ap (λ t. t.1) last, ap (λ t. t.0.blob) last)
run-definitions parse_int32 c (d ∷ ds) r n =
    let c' = closed (opened c d.name) d.attributes in
    let (going, made) = run-definitions parse_int32 c' ds (closed-IsReady c d r) n.1 in
    rw
      (
        append_assoc (definition_events d) (definitions_events ds) (end_map ∷ []),
        run-definition parse_int32 c d (definitions_events ds ++ end_map ∷ []) r n.0,
      )
      (
        going,
        made
            ∙ ap {A = JBlob} {B = JBlob} (λ b. record b { registers = table b.registers ds })
                (closed-store c d r),
      )

unfoldable pub ready : Context
ready = record initial { depth = 1 }

pub ready-IsReady : IsReady ready
unfolding ready
ready-IsReady = record { outer = refl; plain = refl; fresh = refl }

run-document :
    (parse_int32 : Bytes → Option ℤ) (ds : List RegDef)
    → AllRegNames ds
    → let r = run parse_int32 initial (document ds) in
      (r.1 ≡ true) × (r.0.blob ≡ record { registers = table [] ds; info32 = [] })
unfolding document ready
run-document parse_int32 ds n =
    unfold run callback jblob_start_map in run-definitions parse_int32 ready ds ready-IsReady n

-- For a text whose callbacks are those of a document of definitions, `parse` returns the table that
-- the definitions describe in order, and no metadata: a definition with an attribute out of range is
-- dropped, and a later one replaces an earlier one of the same name.
pub parse-document :
    (yajl : Yajl) (parse_int32 : Bytes → Option ℤ) (buf : Bytes) (ds : List RegDef)
    → yajl.events (until_nul buf) ≡ document ds
    → yajl.malformed (until_nul buf) ≡ none
    → AllRegNames ds
    → parse yajl parse_int32 buf ≡ ok (record { registers = table [] ds; info32 = [] })
unfolding parse parse_buffer
parse-document yajl parse_int32 buf ds e w n =
    let (going, made) = run-document parse_int32 ds n in
    let on : (run parse_int32 initial (yajl.events (until_nul buf))).1 ≡ true = rw e going in
    rw (on, w) (ap ok (rw e made))
