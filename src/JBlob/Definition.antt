-- ===== src/JBlob/Definition.antt =====
-- What a well-formed document means: the registers that its definitions describe, against the
-- callbacks.
use feed_core.Prelude.{
  ◌^◌, ◌≡◌, refl, ap, Bool, true, false, not, ◌&&◌, ◌||◌, List, [], ◌∷◌, ◌++◌, append_assoc, Option,
  arith, ◌===◌, if◌then◌else◌, Bytes, codes, Bool-cases, inl, inr,
}
use feed_core.Prelude.Int.{ℤ, pos, to_unsigned, ltb_ℤ}
use feed_core.Prelude.Maps.{bytes_key}
use feed_core.JBlob.{
  JRegister, unsigned, signed, Context, JsonEvent, integer, string, map_key, high_byte_set,
  has_char, set_integer, jblob_integer, jblob_string, jblob_map_key, callback, run,
}

-- An attribute of a register in the document.
pub data Attribute : Type 0 where
  base_addr addr_width data_width : ℤ → Attribute
  access description sign : Bytes → Attribute

pub attribute_events : Attribute → List JsonEvent
attribute_events (base_addr v) = map_key (codes "base_addr") ∷ integer v ∷ []
attribute_events (addr_width v) = map_key (codes "addr_width") ∷ integer v ∷ []
attribute_events (data_width v) = map_key (codes "data_width") ∷ integer v ∷ []
attribute_events (access v) = map_key (codes "access") ∷ string v ∷ []
attribute_events (description v) = map_key (codes "description") ∷ string v ∷ []
attribute_events (sign v) = map_key (codes "sign") ∷ string v ∷ []

-- An address has 24 bits, a width is at most 32.
pub in_range : Attribute → Bool
in_range (base_addr v) = not (high_byte_set v)
in_range (addr_width v) = not (ltb_ℤ (pos 32) v)
in_range (data_width v) = not (ltb_ℤ (pos 32) v)
in_range (access v) = true
in_range (description v) = true
in_range (sign v) = true

pub with_attribute : JRegister → Attribute → JRegister
with_attribute r (base_addr v) = record r { base_addr = to_unsigned (2 ^ 32) v }
with_attribute r (addr_width v) = record r { addr_width = to_unsigned 256 v }
with_attribute r (data_width v) = record r { data_width = to_unsigned 256 v }
with_attribute r (access v) = record r { readable = has_char b'r' v; writable = has_char b'w' v }
with_attribute r (description v) = record r { description = v }
with_attribute r (sign v) =
    if v === codes "unsigned"
    then record r { sign = unsigned }
    else if v === codes "signed"
    then record r { sign = signed }
    else r

attribute_key : Attribute → Bytes
attribute_key (base_addr v) = codes "base_addr"
attribute_key (addr_width v) = codes "addr_width"
attribute_key (data_width v) = codes "data_width"
attribute_key (access v) = codes "access"
attribute_key (description v) = codes "description"
attribute_key (sign v) = codes "sign"

after_attribute : Context → Attribute → Context
unfolding attribute_key
after_attribute c a = record c {
  param = attribute_key a;
  ignore_scratch = if in_range a then c.ignore_scratch else true;
  scratch = if in_range a then with_attribute c.scratch a else c.scratch;
}

module _ (parse_int32 : Bytes → Option ℤ) where
  run-attribute :
      (c : Context) (a : Attribute) (es : List JsonEvent)
      → c.depth ≡ 2
      → c.in_metadata ≡ false
      → run parse_int32 c (attribute_events a ++ es) ≡ run parse_int32 (after_attribute c a) es
  unfolding run callback jblob_map_key attribute_events after_attribute in_range with_attribute
      ◌===◌ jblob_integer set_integer jblob_string
  run-attribute c (base_addr v) es d m = elim (Bool-cases (high_byte_set v)) [
    | inl b ↦ rw (d, m, b)
    | inr b ↦ rw (d, m, b)
  ]
  run-attribute c (addr_width v) es d m = rw (d, m) (ap (λ t. run parse_int32 t es) (ground arith))
  run-attribute c (data_width v) es d m = rw (d, m) (ap (λ t. run parse_int32 t es) (ground arith))
  run-attribute c (access v) es d m = rw (d, m)
  run-attribute c (description v) es d m = rw (d, m)
  run-attribute c (sign v) es d m = rw (d, m) (ap (λ t. run parse_int32 t es) (ground arith))

pub all_events : List Attribute → List JsonEvent
all_events [] = []
all_events (a ∷ attrs) = attribute_events a ++ all_events attrs

pub after_all : Context → List Attribute → Context
after_all c [] = c
after_all c (a ∷ attrs) = after_all (after_attribute c a) attrs

pub all_in_range : List Attribute → Bool
all_in_range [] = true
all_in_range (a ∷ attrs) = in_range a && all_in_range attrs

-- The register that the attributes describe, a later one overriding an earlier one.
pub described : JRegister → List Attribute → JRegister
described r [] = r
described r (a ∷ attrs) = described (with_attribute r a) attrs

-- What the attributes leave alone, and what they make of the register being read.
pub record Described (c d : Context) (attrs : List Attribute) : Type 0 where
  pub same_blob : d.blob ≡ c.blob
  pub same_name : d.regname ≡ c.regname
  pub same_error : d.error ≡ c.error
  pub same_depth : d.depth ≡ c.depth
  pub same_mode : d.in_metadata ≡ c.in_metadata
  pub dropped : d.ignore_scratch ≡ c.ignore_scratch || not (all_in_range attrs)
  pub read : all_in_range attrs ≡ true → d.scratch ≡ described c.scratch attrs

pub after_all-Described :
    (c : Context) (attrs : List Attribute) → Described c (after_all c attrs) attrs
unfolding after_all all_in_range described after_attribute
after_all-Described c [] = record {
  same_blob = refl;
  same_name = refl;
  same_error = refl;
  same_depth = refl;
  same_mode = refl;
  dropped = ground arith;
  read = λ h. refl;
}
after_all-Described c (a ∷ attrs) =
    let ih = after_all-Described (after_attribute c a) attrs in
    record {
      same_blob = ih.same_blob;
      same_name = ih.same_name;
      same_error = ih.same_error;
      same_depth = ih.same_depth;
      same_mode = ih.same_mode;
      dropped = ground (arith, ih.dropped);
      read = λ h. ground (arith, ih.read);
    }

module _ (parse_int32 : Bytes → Option ℤ) where
  pub run-all :
      (c : Context) (attrs : List Attribute) (es : List JsonEvent)
      → c.depth ≡ 2
      → c.in_metadata ≡ false
      → run parse_int32 c (all_events attrs ++ es) ≡ run parse_int32 (after_all c attrs) es
  unfolding all_events after_all after_attribute
  run-all c [] es d m = refl
  run-all c (a ∷ attrs) es d m =
      rw
        (
          append_assoc (attribute_events a) (all_events attrs) es,
          run-attribute parse_int32 c a (all_events attrs ++ es) d m,
        )
        (run-all (after_attribute c a) attrs es d m)
