-- ===== src/Rom/Words.antt =====
-- The ROM as 32-bit words: the overload of `prepare` for word arrays, and the bytes that a device
-- stores for it.
use mathlib.Core.Path.{ap₂}
use feed_core.Prelude.{
  ℕ, ◌*◌, ◌%◌, ◌<◌, ◌≡◌, refl, true, List, [], ◌∷◌, ◌++◌, map, arith, Bytes, length, drop, All,
  All-append, drop-All,
}
use feed_core.Prelude.Exn.{ok, ◌>>=◌, >>=-returns}
use feed_core.Prelude.Words.{IsByte, be32, put_be32, le_bytes, be_bytes, be_words}
use feed_core.Rom.{
  Codec, RomDescriptor, DescType, invalid, text, big_int, json, prepare, prepare_words, parse,
  spread, pad_even, encode, from_hex,
}
use feed_core.Rom.Hex.{unhexchar-lt}
use feed_core.Rom.Image.{prepare_nil, prepare_cons}
use feed_core.Rom.Bounds.{prepare_bounds}
use feed_core.Rom.RoundTrip.{AllFaithful, normal, parse-prepare}

le_bytes-IsByte : (ws : List ℕ) → All IsByte (le_bytes ws)
unfolding le_bytes
le_bytes-IsByte [] = tt
le_bytes-IsByte (v ∷ vs) =
    (omega arith, (omega arith, (omega arith, (omega arith, le_bytes-IsByte vs))))

length-le_bytes : (ws : List ℕ) → length (le_bytes ws) % 4 ≡ 0
unfolding le_bytes
length-le_bytes [] = omega arith
length-le_bytes (v ∷ vs) = omega (arith, length-le_bytes vs)

put_be32-IsByte : (v : ℕ) → All IsByte (put_be32 v)
unfolding put_be32
put_be32-IsByte v = omega arith

put-be32 :
    (a b c d : ℕ)
    → a < 256
    → b < 256
    → c < 256
    → d < 256
    → put_be32 (be32 a b c d) ≡ a ∷ b ∷ c ∷ d ∷ []
unfolding put_be32 be32
put-be32 a b c d p q r s = ground arith

be_bytes-be_words : (x : Bytes) → All IsByte x → length x % 4 ≡ 0 → be_bytes (be_words x) ≡ x
unfolding be_bytes be_words
be_bytes-be_words [] h l = refl
be_bytes-be_words (a ∷ []) h l = absurd (omega arith)
be_bytes-be_words (a ∷ b ∷ []) h l = absurd (omega arith)
be_bytes-be_words (a ∷ b ∷ c ∷ []) h l = absurd (omega arith)
be_bytes-be_words (a ∷ b ∷ c ∷ d ∷ x) (p, (q, (r, (s, h)))) l =
    ap₂ ◌++◌ (put-be32 a b c d p q r s) (be_bytes-be_words x h (omega arith))

spread-IsByte : (c : Bytes) → All IsByte c → All IsByte (spread c)
unfolding spread
spread-IsByte [] h = tt
spread-IsByte (a ∷ []) h = tt
spread-IsByte (a ∷ b ∷ c) (p, (q, h)) = (omega arith, (omega arith, (p, (q, spread-IsByte c h))))

pad_even-IsByte : (c : Bytes) → All IsByte c → All IsByte (pad_even c)
unfolding pad_even
pad_even-IsByte c h = ground (arith, All-append IsByte c (0 ∷ []) h (omega arith))

from_hex-IsByte : (c : Bytes) → All IsByte (from_hex c)
unfolding from_hex
from_hex-IsByte [] = tt
from_hex-IsByte (a ∷ []) = omega (arith, unhexchar-lt a)
from_hex-IsByte (a ∷ b ∷ c) = (omega (arith, unhexchar-lt a, unhexchar-lt b), from_hex-IsByte c)

-- Texts are bytes, and so is what zlib gives for a JSON text.
abbrev pub Encodable : Codec → DescType → Bytes → Type 0
Encodable codec invalid v = Unit {0}
Encodable codec text v = All IsByte v
Encodable codec big_int v = Unit {0}
Encodable codec json v = (z : Bytes) → codec.zdeflate v ≡ ok z → All IsByte z

abbrev pub AllEncodable : Codec → List RomDescriptor → Type 0
AllEncodable codec [] = Unit {0}
AllEncodable codec (d ∷ ds) = Encodable codec d.type d.value × AllEncodable codec ds

module _ (codec : Codec) where
  encode-IsByte :
      (t : DescType) (v raw : Bytes)
      → Encodable codec t v
      → encode codec (record { type = t; value = v }) ≡ ok raw
      → All IsByte raw
  unfolding encode
  encode-IsByte invalid v raw h e = cc
  encode-IsByte text v raw h e = ground arith
  encode-IsByte big_int v raw h e = ground (arith, from_hex-IsByte v)
  encode-IsByte json v raw h e = h raw e

  prepare-IsByte :
      (ds : List RomDescriptor) (buf out : Bytes) (n : ℕ)
      → AllEncodable codec ds
      → All IsByte buf
      → prepare codec ds buf ≡ ok (out, n)
      → All IsByte out
  prepare-IsByte [] buf out n h b e = let (_, same, _) = prepare_nil codec buf out n e in rw same b
  prepare-IsByte (d ∷ ds) buf out n h b e =
      let (raw, rest, m, enc, small, room, later, image, used) =
        prepare_cons codec d ds buf out n e in
      rw image (
        All-append IsByte (put_be32 _) (spread (pad_even raw) ++ rest) (put_be32-IsByte _) (
          All-append IsByte (spread (pad_even raw)) rest
            (spread-IsByte _ (pad_even-IsByte raw (encode-IsByte d.type d.value raw h.0 enc)))
            (prepare-IsByte ds _ rest m h.1 (drop-All IsByte _ buf b) later)))

  -- A word array filled by `prepare_words` and stored in network order parses to the descriptors, in
  -- normal form, and what `parse` makes of the array's old bytes behind them, for contents that are
  -- bytes, texts without NUL and a zlib that gives JSON texts back.
  pub parse-prepare_words :
      (ds : List RomDescriptor) (ws out : List ℕ) (k : ℕ)
      → AllFaithful codec ds
      → AllEncodable codec ds
      → prepare_words codec ds ws ≡ ok (out, k)
      → parse codec true (be_bytes out)
        ≡ (parse codec true (drop (4 * k) (le_bytes ws)) >>= λ more. ok (map normal ds ++ more))
  unfolding prepare_words
  parse-prepare_words ds ws out k f h e =
      let ((image, n), made, eq) = >>=-returns _ (prepare codec ds (le_bytes ws)) _ e in
      let (len, whole, _, _) = prepare_bounds codec ds (le_bytes ws) image n made in
      let words : be_words image ≡ out = ground arith in
      let used : n ≡ 4 * k = ground arith in
      rw
        (
          ← words,
          be_bytes-be_words image
              (prepare-IsByte ds (le_bytes ws) image n h (le_bytes-IsByte ws) made)
              (omega (arith, length-le_bytes ws)),
          ← used,
        )
        (parse-prepare codec ds (le_bytes ws) image n f made)
