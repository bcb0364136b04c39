-- ===== src/Rom/RoundTrip.antt =====
-- `parse` against the image that `prepare` writes.
use feed_core.Prelude.{
  ℕ, ◌+◌, ◌*◌, ◌/◌, ◌%◌, ◌^◌, ◌<◌, ◌≡◌, ◌≢◌, refl, ap, ◌∙◌, true, List, [], ◌∷◌, ◌++◌, map, arith,
  Bytes, length, drop, take-append, le→ltb, drop-append, length-append, drop-drop,
}
use feed_core.Prelude.Exn.{Result, ok, err, ◌>>=◌}
use feed_core.Prelude.Words.{put_be32, be32-put}
use feed_core.Rom.{
  Codec, DescType, invalid, text, big_int, json, RomDescriptor, decode, encode, parse, prepare,
  contents, spread, pad_even, type_code, type_of_code, to_hex, from_hex,
}
use feed_core.Rom.Loop.{after_header, parse-after_header}
use feed_core.Rom.Image.{prepare_nil, prepare_cons}
use feed_core.Rom.Contents.{
  contents-spread, length-spread, pad_even-even, NoNul, until_nul-pad_even,
}

-- What a descriptor reads back as: a big integer gets whole words of lower-case digits.
unfoldable pub normal : RomDescriptor → RomDescriptor
normal d = elim d.type [
  | big_int ↦ record d { value = to_hex (pad_even (from_hex d.value)) }
  | _ ↦ d
]

-- A text has no NUL; zlib gives a JSON text back, also with a byte of padding behind the stream.
abbrev pub Faithful : Codec → DescType → Bytes → Type 0
Faithful codec invalid v = Unit {0}
Faithful codec text v = NoNul v
Faithful codec big_int v = Unit {0}
Faithful codec json v = (z : Bytes) → codec.zdeflate v ≡ ok z → codec.zinflate (pad_even z) ≡ ok v

abbrev pub AllFaithful : Codec → List RomDescriptor → Type 0
AllFaithful codec [] = Unit {0}
AllFaithful codec (d ∷ ds) = Faithful codec d.type d.value × AllFaithful codec ds

normal-type : (d : RomDescriptor) → record { type = d.type; value = (normal d).value } ≡ normal d
unfolding normal
normal-type d = ground arith

decode-encode :
    (codec : Codec) (t : DescType) (v raw : Bytes)
    → Faithful codec t v
    → encode codec (record { type = t; value = v }) ≡ ok raw
    → (t ≢ invalid)
      × (decode codec t (pad_even raw) ≡ ok (normal (record { type = t; value = v })).value)
unfolding encode decode normal
decode-encode codec invalid v raw f e = cc
decode-encode codec text v raw f e = (λ h. cc, ground (arith, until_nul-pad_even v f))
decode-encode codec big_int v raw f e = (λ h. cc, ground arith)
decode-encode codec json v raw f e = (λ h. cc, ground (arith, f raw))

code_lt : (t : DescType) → type_code t < 4
unfolding type_code
code_lt invalid = omega arith
code_lt text = omega arith
code_lt big_int = omega arith
code_lt json = omega arith

code_back : (t : DescType) → type_of_code (type_code t) ≡ t
unfolding type_code type_of_code
code_back invalid = refl
code_back text = refl
code_back big_int = refl
code_back json = refl

code_ne : (t : DescType) → t ≢ invalid → type_code t ≢ 0
unfolding type_code
code_ne invalid n = absurd (n refl)
code_ne text n = omega arith
code_ne big_int n = omega arith
code_ne json n = omega arith

module _ (codec : Codec) where
  after_header-spread :
      (h : ℕ) (t : DescType) (c out : Bytes)
      → h < 2 ^ 16
      → h / 2 ^ 14 ≢ 0
      → type_of_code (h / 2 ^ 14) ≡ t
      → h % 2 ^ 14 * 4 ≡ length (spread c)
      → contents true (spread c) ≡ c
      → after_header codec true h (spread c ++ out) ≡ (
          decode codec t c >>= λ v.
          parse codec true out >>= λ infos. ok (record { type = t; value = v } ∷ infos))
  unfolding after_header
  after_header-spread h t c out small some_type code size copied =
      rw
        (
          size,
          code,
          take-append (spread c) out,
          drop-append (spread c) out,
          copied,
          le→ltb (length (spread c ++ out)) (length (spread c))
              (omega (arith, length-append (spread c) out)),
        )
        (ground arith)

  parse_block :
      (t : DescType) (c out : Bytes)
      → t ≢ invalid
      → length c % 2 ≡ 0
      → length c / 2 < 0x4000
      → parse codec true (put_be32 (type_code t * 2 ^ 14 + length c / 2) ++ (spread c ++ out)) ≡ (
          decode codec t c >>= λ v.
          parse codec true out >>= λ infos. ok (record { type = t; value = v } ∷ infos))
  unfolding put_be32
  parse_block t c out n e l =
      let header = type_code t * 2 ^ 14 + length c / 2 in
      let code : header / 2 ^ 14 ≡ type_code t = omega (arith, code_lt t) in
      rw
        (
          parse-after_header codec true _ _ _ _ (spread c ++ out),
          be32-put header (omega (arith, code_lt t)),
        )
        (after_header-spread header t c out (omega (arith, code_lt t))
          (omega (arith, code_ne t n, code)) (ap type_of_code code ∙ code_back t)
          (omega (arith, length-spread c e)) (contents-spread c e))

  parse_prepared :
      (d : RomDescriptor) (raw out : Bytes)
      → Faithful codec d.type d.value
      → encode codec d ≡ ok raw
      → length (pad_even raw) / 2 < 0x4000
      → parse codec true (
          put_be32 (type_code d.type * 2 ^ 14 + length (pad_even raw) / 2)
          ++ (spread (pad_even raw) ++ out))
        ≡ (parse codec true out >>= λ infos. ok (normal d ∷ infos))
  parse_prepared d raw out f e l =
      let (n, back) = decode-encode codec d.type d.value raw f e in
      rw (parse_block d.type (pad_even raw) out n (pad_even-even raw) l, back, normal-type d)

  bind_ok : (m : Result (List RomDescriptor)) → m ≡ (m >>= λ more. ok more)
  bind_ok (ok more) = refl
  bind_ok (err e) = refl

  bind_cons :
      (m : Result (List RomDescriptor)) (d : RomDescriptor) (ds : List RomDescriptor)
      → ((m >>= λ more. ok (ds ++ more)) >>= λ infos. ok (d ∷ infos))
        ≡ (m >>= λ more. ok (d ∷ ds ++ more))
  bind_cons (ok more) d ds = refl
  bind_cons (err e) d ds = refl

  -- When `prepare` succeeds, parsing the whole buffer gives the descriptors, in normal form, and then
  -- whatever `parse` makes of the old bytes behind them, for texts without NUL and a zlib that gives
  -- JSON texts back.
  pub parse-prepare :
      (ds : List RomDescriptor) (buf out : Bytes) (n : ℕ)
      → AllFaithful codec ds
      → prepare codec ds buf ≡ ok (out, n)
      → parse codec true out
        ≡ (parse codec true (drop n buf) >>= λ more. ok (map normal ds ++ more))
  parse-prepare [] buf out n f e =
      let (_, same, none_used) = prepare_nil codec buf out n e in
      rw (same, none_used) (bind_ok (parse codec true buf))
  parse-prepare (d ∷ ds) buf out n f e =
      let (raw, rest, m, enc, small, room, later, image, used) =
        prepare_cons codec d ds buf out n e in
      let need : ℕ = 4 + length (pad_even raw) * 2 in
      rw
        (
          image,
          parse_prepared d raw rest f.0 enc small,
          parse-prepare ds (drop need buf) rest m f.1 later,
          used,
          ← drop-drop need m buf,
        )
        (bind_cons (parse codec true (drop m (drop need buf))) (normal d) (map normal ds))
