-- ===== src/Rom/Tests.antt =====
-- Runs of the ROM code, and the theorems at concrete images.
use feed_core.Prelude.{
  ℕ, ◌+◌, ◌%◌, ◌≤◌, ◌≡◌, ◌≢◌, refl, true, List, [], ◌∷◌, ◌++◌, map, arith, Bytes, codes, length,
  drop, replicate, All, subst,
}
use feed_core.Prelude.Exn.{ok, err, fuel_out, ◌>>=◌}
use feed_core.Prelude.Words.{IsByte, be32, be_bytes, le_bytes, be_words, put_be32}
use feed_core.Rom.{
  Codec, RomDescriptor, text, big_int, json, prepare, prepare_words, parse, pad_even, encode,
  type_code, spread, from_hex,
}
use feed_core.Rom.Loop.{parse-ne-fuel_out}
use feed_core.Rom.RoundTrip.{AllFaithful, normal, parse-prepare}
use feed_core.Rom.Bounds.{prepare_bounds}
use feed_core.Rom.Words.{AllEncodable, parse-prepare_words}

-- A codec that stores a text as it is.
abbrev plain : Codec
plain = record { zinflate = λ v. ok v; zdeflate = λ v. ok v }

abbrev infos : List RomDescriptor
infos =
    record { type = text; value = codes "Hello" }
    ∷ record { type = big_int; value = codes "12345678abcde" }
    ∷ record { type = json; value = codes "{}" }
    ∷ []

abbrev blank : ℕ → Bytes
blank n = replicate n 0

-- An odd text is padded, and an odd number gets a last zero digit and whole words.
prepare_runs :
    prepare plain (record { type = text; value = codes "abc" } ∷ []) (blank 16)
    ≡ ok (0 ∷ 0 ∷ 64 ∷ 2 ∷ 0 ∷ 0 ∷ 97 ∷ 98 ∷ 0 ∷ 0 ∷ 99 ∷ 0 ∷ 0 ∷ 0 ∷ 0 ∷ 0 ∷ [], 12)
unfolding prepare encode pad_even replicate put_be32 type_code spread
prepare_runs = refl

abbrev image : Bytes
image =
    0 ∷ 0 ∷ 64 ∷ 3 ∷ 0 ∷ 0 ∷ 72 ∷ 101 ∷ 0 ∷ 0 ∷ 108 ∷ 108 ∷ 0 ∷ 0 ∷ 111 ∷ 0 ∷ 0 ∷ 0 ∷ 128 ∷ 4 ∷ 0
    ∷ 0 ∷ 18 ∷ 52 ∷ 0 ∷ 0 ∷ 86 ∷ 120 ∷ 0 ∷ 0 ∷ 171 ∷ 205 ∷ 0 ∷ 0 ∷ 224 ∷ 0 ∷ 0 ∷ 0 ∷ 192 ∷ 1 ∷ 0 ∷ 0
    ∷ 123 ∷ 125 ∷ 0 ∷ 0 ∷ 0 ∷ 0 ∷ []

prepared : prepare plain infos (blank 48) ≡ ok (image, 44)
unfolding prepare encode pad_even replicate put_be32 type_code spread from_hex
prepared = refl

stored : {v z : Bytes} → ok v ≡ ok z → v ≡ z
stored e = cc

faithful : AllFaithful plain infos
unfolding pad_even
faithful =
    (omega arith, (tt, (λ z e. subst (λ t. ok (pad_even t) ≡ ok (codes "{}")) (stored e) refl, tt)))

encodable : AllEncodable plain infos
encodable = (omega arith, (tt, (λ z e. subst (All IsByte) (stored e) (omega arith), tt)))

parse-prepare_example :
    parse plain true image
    ≡ (parse plain true (drop 44 (blank 48)) >>= λ more. ok (map normal infos ++ more))
parse-prepare_example = parse-prepare plain infos (blank 48) image 44 faithful prepared

prepare_bounds_example :
    (length image ≡ length (blank 48))
    × (44 % 4 ≡ 0)
    × (44 + 4 ≤ length (blank 48))
    × (drop 44 image ≡ drop 44 (blank 48))
prepare_bounds_example = prepare_bounds plain infos (blank 48) image 44 prepared

parse-ne-fuel_out_example : parse plain true image ≢ err fuel_out
parse-ne-fuel_out_example = parse-ne-fuel_out plain (λ c h. cc) true image

abbrev zeros : List ℕ
zeros = replicate 12 0

abbrev words : List ℕ
words =
    0x4003 ∷ 0x4865 ∷ 0x6c6c ∷ 0x6f00 ∷ 0x8004 ∷ 0x1234 ∷ 0x5678 ∷ 0xabcd ∷ 0xe000 ∷ 0xc001 ∷ 0x7b7d
    ∷ 0 ∷ []

prepared_words : prepare_words plain infos zeros ≡ ok (words, 11)
unfolding prepare_words prepare encode pad_even replicate put_be32 type_code spread from_hex
    le_bytes be_words be32
prepared_words = refl

parse-prepare_words_example :
    parse plain true (be_bytes words)
    ≡ (parse plain true (drop 44 (le_bytes zeros)) >>= λ more. ok (map normal infos ++ more))
parse-prepare_words_example =
    parse-prepare_words plain infos zeros words 11 faithful encodable prepared_words
