-- ===== src/Rom/Image.antt =====
-- What a successful `prepare` has written, descriptor by descriptor.
use feed_core.Prelude.{
  ℕ, ◌+◌, ◌*◌, ◌/◌, ◌^◌, ◌<◌, ◌≤◌, ◌≡◌, refl, Bool, true, false, List, [], ◌∷◌, ◌++◌, arith, Bytes,
  length, drop, leb, ltb, if◌then◌else◌,
}
use feed_core.Prelude.Exn.{Exn, runtime_error, Result, ok, err, ◌>>=◌, >>=-returns}
use feed_core.Prelude.Words.{put_be32}
use feed_core.Rom.{Codec, RomDescriptor, encode, prepare, spread, pad_even, type_code}

guarded :
    (b b' : Bool) (x x' : Exn) (m : Result (Bytes × ℕ)) (f : Bytes → Bytes) (k : ℕ) {out : Bytes}
    {n : ℕ}
    → (if◌then◌else◌ {A = Result (Bytes × ℕ)} b
        (err x)
        (if b' then err x' else m >>= λ r. ok (f r.0, k + r.1)))
      ≡ ok (out, n)
    → (b ≡ false)
      × (b' ≡ false)
      × (r : Bytes) × (j : ℕ) × (m ≡ ok (r, j))
      × (out ≡ f r)
      × (n ≡ k + j)
guarded false false x x' (ok (r, j)) f k h = (refl, refl, r, j, refl, ground arith, ground arith)
guarded false false x x' (err e) f k h = cc
guarded false true x x' m f k h = cc
guarded true b' x x' m f k h = cc

module _ (codec : Codec) where
  pub prepare_nil :
      (buf out : Bytes) (n : ℕ)
      → prepare codec [] buf ≡ ok (out, n)
      → (4 ≤ length buf) × (out ≡ buf) × (n ≡ 0)
  unfolding prepare
  prepare_nil buf out n e = ground arith

  -- The block of `d`, and the image of the rest behind it.
  abbrev pub Block : RomDescriptor → List RomDescriptor → Bytes → Bytes → ℕ → Type 0
  Block d ds buf out n =
      (raw : Bytes) × (rest : Bytes) × (m : ℕ) × (encode codec d ≡ ok raw)
      × (length (pad_even raw) / 2 < 0x4000)
      × (4 + length (pad_even raw) * 2 ≤ length buf)
      × (prepare codec ds (drop (4 + length (pad_even raw) * 2) buf) ≡ ok (rest, m))
      × (out
          ≡ put_be32 (type_code d.type * 2 ^ 14 + length (pad_even raw) / 2)
            ++ (spread (pad_even raw) ++ rest))
      × (n ≡ 4 + length (pad_even raw) * 2 + m)

  pub prepare_cons :
      (d : RomDescriptor) (ds : List RomDescriptor) (buf out : Bytes) (n : ℕ)
      → prepare codec (d ∷ ds) buf ≡ ok (out, n)
      → Block d ds buf out n
  unfolding prepare
  prepare_cons d ds buf out n e =
      let (raw, enc, checked) = >>=-returns _ (encode codec d) _ e in
      let c = pad_even raw in
      let need : ℕ = 4 + length c * 2 in
      let (small, room, r, j, later, image, used) =
        guarded (leb 0x4000 (length c / 2)) (ltb (length buf) need)
          (runtime_error "Descriptor too large" (type_code d.type ∷ length c ∷ []))
          (runtime_error "Not enough space to encode ROM contents" (length buf ∷ need ∷ []))
          (prepare codec ds (drop need buf))
          (λ rest. put_be32 (type_code d.type * 2 ^ 14 + length c / 2) ++ (spread c ++ rest)) need
          checked in
      (raw, r, j, enc, ground arith, ground arith, later, image, used)
