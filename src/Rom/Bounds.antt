-- ===== src/Rom/Bounds.antt =====
-- src/util/rom.cpp: the part of its buffer that `prepare` uses.
use feed_core.Prelude.{
  ℕ, ◌+◌, ◌*◌, ◌/◌, ◌%◌, ◌^◌, ◌≤◌, ◌≡◌, refl, ap, sym, ◌∙◌, List, [], ◌∷◌, ◌++◌, arith, Bytes,
  length, drop, length-append, length-drop, drop-drop, drop-append, append_assoc,
}
use feed_core.Prelude.Exn.{ok}
use feed_core.Prelude.Words.{put_be32}
use feed_core.Rom.{Codec, RomDescriptor, prepare, spread, pad_even, type_code}
use feed_core.Rom.Contents.{length-spread, pad_even-even}
use feed_core.Rom.Image.{prepare_nil, prepare_cons}

length-put_be32 : (v : ℕ) → length (put_be32 v) ≡ 4
unfolding put_be32
length-put_be32 v = refl

module _ (codec : Codec) where
  length-block :
      (v : ℕ) (raw : Bytes)
      → length (put_be32 v ++ spread (pad_even raw)) ≡ 4 + length (pad_even raw) * 2
  length-block v raw = omega (
    arith,
    length-append (put_be32 v) (spread (pad_even raw)),
    length-put_be32 v,
    length-spread (pad_even raw) (pad_even-even raw),
  )

  -- A successful `prepare` keeps the buffer's length, uses whole words, leaves room for the four
  -- bytes of an end descriptor, and leaves every byte behind the used ones as it was.
  pub prepare_bounds :
      (ds : List RomDescriptor) (buf out : Bytes) (n : ℕ)
      → prepare codec ds buf ≡ ok (out, n)
      → (length out ≡ length buf) × (n % 4 ≡ 0) × (n + 4 ≤ length buf) × (drop n out ≡ drop n buf)
  prepare_bounds [] buf out n e =
      let (room, same, none_used) = prepare_nil codec buf out n e in
      (ap length same, omega arith, omega arith, rw (same, none_used))
  prepare_bounds (d ∷ ds) buf out n e =
      let (raw, rest, m, enc, small, room, later, image, used) =
        prepare_cons codec d ds buf out n e in
      let need : ℕ = 4 + length (pad_even raw) * 2 in
      let header : ℕ = type_code d.type * 2 ^ 14 + length (pad_even raw) / 2 in
      let front = put_be32 header ++ spread (pad_even raw) in
      let (len, whole, end, behind) = prepare_bounds ds (drop need buf) rest m later in
      let whole_image : out ≡ front ++ rest =
        image ∙ sym (append_assoc (put_be32 header) (spread (pad_even raw)) rest) in
      (
        omega (
          arith,
          ap length whole_image,
          length-append front rest,
          length-block header raw,
          length-drop need buf,
        ),
        omega (arith, pad_even-even raw),
        omega (arith, length-drop need buf),
        rw
            (
              whole_image,
              used,
              ← drop-drop need m (front ++ rest),
              ← drop-drop need m buf,
              ← behind,
              ← length-block header raw,
              drop-append front rest,
            )
            refl,
      )
