-- ===== src/JBlob.antt =====
-- src/util/jblob.cpp and jblob.h: the register table in JSON. yajl is a parameter: the callbacks that
-- it makes for a text, and whether it finds the text well formed. Warnings are not modelled.
pub mod Valid
pub mod Cancel
pub mod Definition
pub mod Document
pub mod Metadata
pub mod Range
mod Tests
use feed_core.Prelude.{
  ℕ, suc, ◌+◌, ◌-◌, ◌*◌, ◌%◌, ◌^◌, Bool, true, false, ◌&&◌, ◌||◌, List, [], ◌∷◌, Option, none, some,
  ltb, leb, ◌==◌, ◌===◌, if◌then◌else◌, Bytes, codes,
}
use feed_core.Prelude.Int.{ℤ, pos, negsuc, to_unsigned, signed32, ltb_ℤ}
use feed_core.Prelude.Exn.{Exn, runtime_error, logic_error, Result, ok, err}
use feed_core.Prelude.Maps.{lookup, insert, bytes_key}
use feed_core.Rom.{until_nul}

pub data Sign : Type 0 where
  unsigned signed : Sign

pub record JRegister : Type 0 where
  pub name : Bytes
  pub description : Bytes
  pub base_addr : ℕ
  pub addr_width : ℕ
  pub data_width : ℕ
  pub sign : Sign
  pub readable : Bool
  pub writable : Bool

-- JRegister::clear
abbrev pub cleared : JRegister
cleared = record {
  name = [];
  description = [];
  base_addr = 0;
  addr_width = 0;
  data_width = 0;
  sign = unsigned;
  readable = false;
  writable = false;
}

pub record JBlob : Type 0 where
  pub registers : List (Bytes × JRegister)
  pub info32 : List (Bytes × ℤ)

pub record Context : Type 0 where
  pub blob : JBlob
  pub error : Option Exn
  pub regname : Bytes
  pub param : Bytes
  pub depth : ℕ
  pub in_metadata : Bool
  pub ignore_scratch : Bool
  pub scratch : JRegister

-- A callback of yajl with its arguments. Arrays have no callback, so their elements come bare.
pub data JsonEvent : Type 0 where
  null : JsonEvent
  boolean : Bool → JsonEvent
  integer : ℤ → JsonEvent
  double : JsonEvent
  string : Bytes → JsonEvent
  start_map : JsonEvent
  map_key : Bytes → JsonEvent
  end_map : JsonEvent

abbrev pub initial : Context
initial = record {
  blob = record { registers = []; info32 = [] };
  error = none;
  regname = [];
  param = [];
  depth = 0;
  in_metadata = false;
  ignore_scratch = false;
  scratch = cleared;
}

-- CATCH(): the first error is kept, and the callback returns 0.
abbrev pub catch : Context → Exn → Context × Bool
catch c e = (record c { error = elim c.error [ none ↦ some e | some first ↦ some first ] }, false)

-- `val&0xff000000`
unfoldable pub high_byte_set : ℤ → Bool
high_byte_set v = leb (2 ^ 24) (to_unsigned (2 ^ 32) v)

-- The branches of jblob_integer at depth 2 outside the metadata.
unfoldable pub set_integer : Context → ℤ → Context
unfolding high_byte_set
set_integer c v =
    if c.param === codes "base_addr"
    then (if high_byte_set v
        then record c { ignore_scratch = true }
        else record c { scratch = record c.scratch { base_addr = to_unsigned (2 ^ 32) v } })
    else if c.param === codes "addr_width"
    then (if ltb_ℤ (pos 32) v
        then record c { ignore_scratch = true }
        else record c { scratch = record c.scratch { addr_width = to_unsigned 256 v } })
    else if c.param === codes "data_width"
    then (if ltb_ℤ (pos 32) v
        then record c { ignore_scratch = true }
        else record c { scratch = record c.scratch { data_width = to_unsigned 256 v } })
    else c

unfoldable pub jblob_integer : Context → ℤ → Context
jblob_integer c v =
    if c.depth == 2
    then (if c.in_metadata
        then record c {
          blob = record c.blob {
            info32 = insert c.param (signed32 (to_unsigned (2 ^ 32) v)) c.blob.info32;
          };
        }
        else set_integer c v)
    else c

-- `V.find_first_of(x)!=V.npos`
unfoldable pub has_char : ℕ → Bytes → Bool
has_char x [] = false
has_char x (c ∷ cs) = c == x || has_char x cs

unfoldable pub jblob_start_map : Context → Context × Bool
jblob_start_map c =
    let d = c.depth + 1 in
    let entered = record c {
      depth = d;
      ignore_scratch = if d == 2 then false else c.ignore_scratch;
    } in
    if ltb 2 d
    then catch entered (runtime_error "Object depth limit (2) exceeded" [])
    else (entered, true)

-- A key at depth 1 names a register, or the metadata. A duplicate is only warned of.
unfoldable pub jblob_map_key : Context → Bytes → Context × Bool
jblob_map_key c [] = catch c (runtime_error "Zero length key not allowed" [])
jblob_map_key c (k ∷ ks) =
    let key = k ∷ ks in
    if c.depth == 1
    then (
      record c {
        regname = key;
        in_metadata = if key === codes "__metadata__" then true else c.in_metadata;
      },
      true,
    )
    else if c.depth == 2
    then (record c { param = key }, true)
    else catch c (logic_error "key at unsupported depth" [])

-- The end of a register definition, or of the metadata.
unfoldable pub end_definition : Context → Context
end_definition c =
    let stored = insert c.regname (record c.scratch { name = c.regname }) c.blob.registers in
    record c {
      blob = if c.ignore_scratch then c.blob else record c.blob { registers = stored };
      ignore_scratch = false;
      in_metadata = false;
      scratch = cleared;
    }

unfoldable pub jblob_end_map : Context → Context × Bool
jblob_end_map c =
    let c' = if c.depth == 2 then end_definition c else c in
    if c.depth == 0
    then catch c' (logic_error "Object depth underflow" [])
    else (record c' { depth = c.depth - 1 }, true)

module _ (parse_int32 : Bytes → Option ℤ) where
  -- `parse_int32` is libCom's epicsParseInt32 with base 0; `none` is its error.
  unfoldable pub jblob_string : Context → Bytes → Context
  jblob_string c v =
      if c.depth == 2
      then (if c.in_metadata
          then c
          else if c.param === codes "access"
          then record c {
            scratch = record c.scratch { readable = has_char b'r' v; writable = has_char b'w' v };
          }
          else if c.param === codes "description"
          then record c { scratch = record c.scratch { description = v } }
          else if c.param === codes "sign"
          then (if v === codes "unsigned"
              then record c { scratch = record c.scratch { sign = unsigned } }
              else if v === codes "signed"
              then record c { scratch = record c.scratch { sign = signed } }
              else c)
          else elim (parse_int32 (until_nul v)) [ none ↦ c | some n ↦ jblob_integer c n ])
      else c

  -- One callback: the new context, and whether yajl goes on.
  unfoldable pub callback : Context → JsonEvent → Context × Bool
  callback c null = (c, true)
  callback c (boolean b) = (c, true)
  callback c (integer v) = (jblob_integer c v, true)
  callback c double = (c, true)
  callback c (string v) = (jblob_string c v, true)
  callback c start_map = jblob_start_map c
  callback c (map_key k) = jblob_map_key c k
  callback c end_map = jblob_end_map c

  -- yajl_parse, as far as the context sees it: it stops at the first callback that returns 0.
  unfoldable pub run : Context → List JsonEvent → Context × Bool
  run c [] = (c, true)
  run c (e ∷ es) = let r = callback c e in if r.1 then run r.0 es else (r.0, false)

-- What a yajl parse of a text does: its callbacks, and the message if the text is malformed.
pub record Yajl : Type 0 where
  pub events : Bytes → List JsonEvent
  pub malformed : Bytes → Option Exn

-- `throw std::runtime_error(ctxt.err)`
unfoldable pub rethrow : Option Exn → Exn
rethrow none = runtime_error "" []
rethrow (some e) = elim e [ logic_error s ns ↦ runtime_error s ns | other ↦ other ]

module _ (yajl : Yajl) (parse_int32 : Bytes → Option ℤ) where
  -- JBlob::parse(buf, buflen): the contents are replaced only by an `ok`.
  unfoldable pub parse_buffer : Bytes → Result JBlob
  parse_buffer buf =
      let r = run parse_int32 initial (yajl.events buf) in
      if r.1
      then elim (yajl.malformed buf) [ some msg ↦ err msg | none ↦ ok r.0.blob ]
      else err (rethrow r.0.error)

  -- JBlob::parse(buf)
  unfoldable pub parse : Bytes → Result JBlob
  parse buf = parse_buffer (until_nul buf)

-- JBlob::operator[]
unfoldable pub get_register : JBlob → Bytes → Result JRegister
get_register b name = elim (lookup name b.registers) [
  | none ↦ err (runtime_error "No such register" [])
  | some r ↦ ok r
]

-- A pattern of 64 bits as an epicsInt64.
abbrev pub signed64 : ℕ → ℤ
signed64 w = if ltb w (2 ^ 63) then pos w else negsuc (2 ^ 64 - w - 1)

-- JRegister::min, for a signed register of 1 to 64 bits.
unfoldable pub reg_min : JRegister → ℤ
reg_min r = elim r.sign [
  | unsigned ↦ pos 0
  | signed ↦ signed64 (0xffffffffffffffff * 2 ^ (r.data_width - 1) % 2 ^ 64)
]

-- JRegister::max, for up to 62 bits of value.
unfoldable pub reg_max : JRegister → ℤ
reg_max r =
    let nbits : ℕ = elim r.sign [ unsigned ↦ r.data_width | signed ↦ r.data_width - 1 ] in
    pos (2 ^ nbits - 1)
