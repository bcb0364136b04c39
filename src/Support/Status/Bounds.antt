-- ===== src/Support/Status/Bounds.antt =====
-- The buffers of the array records of src/driver/devmain.cpp.
use feed_core.Prelude.{
  ℕ, ◌+◌, ◌-◌, ◌<◌, ◌≤◌, ◌≡◌, ◌⊎◌, inl, inr, refl, not, ◌&&◌, [], ◌∷◌, ◌++◌, Option, none, some,
  arith, ltb, ◌==◌, Bytes, length, take, drop, min, length-append, length-take, length-drop,
  Bool-cases, if-elim,
}
use feed_core.Device.Types.{Device}
use feed_core.Support.Types.{Ftype, Prec}
use feed_core.Support.Status.{
  Text, cut_text, is_char, json_text, read_text, read_jsoninfo, read_error, blob_at, read_blob,
  read_jblob,
}

-- The buffer keeps its size, and NORD is as it was or within the buffer.
pub record IsWithin (buffer : Bytes) (nord : ℕ) (t : Text) : Type 0 where
  pub same_length : length t.buffer ≡ length buffer
  pub counted : (t.nord ≡ nord) ⊎ (t.nord ≤ length buffer)

unchanged :
    (buffer : Bytes) (nord : ℕ) (t : Text)
    → t.buffer ≡ buffer
    → t.nord ≡ nord
    → IsWithin buffer nord t
unchanged buffer nord t b n = record { same_length = rw b refl; counted = inl n }

-- A text of n characters over the start of the buffer.
over_start :
    (n : ℕ) (text buffer : Bytes)
    → length text ≡ n
    → n ≤ length buffer
    → length (text ++ drop n buffer) ≡ length buffer
over_start n text buffer e h =
    omega (arith, e, length-append text (drop n buffer), length-drop n buffer)

length-cut_text :
    (len : ℕ) (text : Bytes) → 0 < len → len ≤ length text + 1 → length (cut_text len text) ≡ len
unfolding cut_text
length-cut_text len text p h =
    omega (arith, length-append (take (len - 1) text) (0 ∷ []), length-take (len - 1) text)

read_text-IsWithin :
    (o : Option Bytes) (prec : Prec) (buffer : Bytes) (nord : ℕ)
    → IsWithin buffer nord (read_text o prec buffer nord)
unfolding read_text
read_text-IsWithin none prec buffer nord = unchanged buffer nord _ refl refl
read_text-IsWithin (some text) prec buffer nord =
    let len = min (length text + 1) (length buffer) in
    elim (Bool-cases (len == 0)) [
      | inl e ↦ rw e (unchanged buffer nord _ refl refl)
      | inr e ↦ rw e (record {
        same_length =
            over_start len (cut_text len text) buffer
              (length-cut_text len text (ground arith) (omega arith)) (omega arith);
        counted = inr (omega arith);
      })
    ]

read_jsoninfo-IsWithin :
    (ftvl : Ftype) (offset : ℕ) (prec : Prec) (buffer : Bytes) (nord : ℕ) (d : Device)
    → IsWithin buffer nord (read_jsoninfo ftvl offset prec buffer nord d)
unfolding read_jsoninfo
read_jsoninfo-IsWithin ftvl offset prec buffer nord d =
    if-elim (IsWithin buffer nord) (is_char ftvl) _ _
      (read_text-IsWithin (json_text offset d) prec buffer nord) (unchanged buffer nord _ refl refl)

read_error-IsWithin :
    (message : Bytes) (prec : Prec) (buffer : Bytes) (nord : ℕ) (d : Device)
    → IsWithin buffer nord (read_error message prec buffer nord d)
unfolding read_error
read_error-IsWithin message prec buffer nord d =
    let len = min (length buffer) (length message + 1) in
    elim (Bool-cases (ltb (length buffer) 2)) [
      | inl e ↦ rw e (unchanged buffer nord _ refl refl)
      | inr e ↦ rw e (record {
        same_length =
            over_start len (cut_text len message) buffer
              (length-cut_text len message (ground arith) (omega arith)) (omega arith);
        counted = inr (omega arith);
      })
    ]

read_blob-IsWithin :
    (o : Option Bytes) (prec : Prec) (buffer : Bytes) (nord : ℕ) (d : Device)
    → IsWithin buffer nord (read_blob o prec buffer nord d)
unfolding read_blob
read_blob-IsWithin none prec buffer nord d = unchanged buffer nord _ refl refl
read_blob-IsWithin (some blob) prec buffer nord d =
    elim (Bool-cases (not (length blob == 0) && not (ltb (length buffer) (length blob)))) [
      | inr e ↦ rw e (unchanged buffer nord _ refl refl)
      | inl e ↦
          let h : length blob ≤ length buffer = ground arith in
          rw e
            (record { same_length = over_start (length blob) blob buffer refl h; counted = inr h })
    ]

-- The array records for the texts, the last message and the descriptions of registers write within
-- their buffers, whatever these hold and however small they are: each buffer keeps its size, and NORD
-- is as it was or at most that size.
pub reads-IsWithin :
    (ftvl : Ftype) (offset : ℕ) (message : Bytes) (prec : Prec) (buffer : Bytes) (nord : ℕ)
    (d : Device)
    → IsWithin buffer nord (read_jsoninfo ftvl offset prec buffer nord d)
      × IsWithin buffer nord (read_error message prec buffer nord d)
      × IsWithin buffer nord (read_jblob offset prec buffer nord d)
unfolding read_jblob
reads-IsWithin ftvl offset message prec buffer nord d = (
  read_jsoninfo-IsWithin ftvl offset prec buffer nord d,
  read_error-IsWithin message prec buffer nord d,
  if-elim (IsWithin buffer nord) (ltb (length buffer) 16) _ _ (unchanged buffer nord _ refl refl)
      (read_blob-IsWithin (blob_at offset d) prec buffer nord d),
)
