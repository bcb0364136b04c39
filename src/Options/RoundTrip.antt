-- ===== src/Options/RoundTrip.antt =====
-- A text of options, as it may be written in a record, against what split_pairs makes of it.
use feed_core.Prelude.{
  ℕ, zero, suc, ◌≡◌, ◌≢◌, ◌<◌, ◌≤◌, refl, ap, ◌∙◌, Bool, true, false, List, [], ◌∷◌, ◌++◌, Bytes,
  arith, length, length-append, All, inl, inr, ◌⊎◌,
}
use feed_core.Prelude.Exn.{ok}
use feed_core.Prelude.Maps.{insert, bytes_key}
use feed_core.Options.{
  is_blank, ends_key, skip_blanks, token, read_value, after_key, split_loop, split_pairs, Pairs,
}

-- One option with the blanks around it: those in front of the `=`, behind it, and behind the value.
pub record OptionText : Type 0 where
  pub key : ℕ × Bytes
  pub before : Bytes
  pub behind : Bytes
  pub value : ℕ × Bytes
  pub last : Bytes

abbrev pub text_of : OptionText → Bytes → Bytes
text_of o rest =
    (o.key.0 ∷ o.key.1)
    ++ (o.before ++ b'=' ∷ (o.behind ++ ((o.value.0 ∷ o.value.1) ++ (o.last ++ rest))))

-- A key holds no blank and no `=`, a value no blank.
pub record IsWritten (o : OptionText) : Type 0 where
  pub key_chars : All (λ c. ends_key c ≡ false) (o.key.0 ∷ o.key.1)
  pub value_chars : All (λ c. is_blank c ≡ false) (o.value.0 ∷ o.value.1)
  pub before_blank : All (λ c. is_blank c ≡ true) o.before
  pub behind_blank : All (λ c. is_blank c ≡ true) o.behind
  pub last_blank : All (λ c. is_blank c ≡ true) o.last

-- A text in front of which a token ends.
abbrev Stops : (ℕ → Bool) → Bytes → Type 0
Stops ends rest = token ends rest ≡ ([], rest)

Stops-empty : (ends : ℕ → Bool) → Stops ends []
unfolding token
Stops-empty ends = refl

Stops-cons : (ends : ℕ → Bool) (c : ℕ) (cs : Bytes) → ends c ≡ true → Stops ends (c ∷ cs)
unfolding token
Stops-cons ends c cs h = rw h refl

token-All :
    (ends : ℕ → Bool) (chars rest : Bytes)
    → All (λ c. ends c ≡ false) chars
    → Stops ends rest
    → token ends (chars ++ rest) ≡ (chars, rest)
unfolding token
token-All ends [] rest h s = s
token-All ends (c ∷ cs) rest h s =
    let t = token-All ends cs rest h.1 s in rw (h.0) (ap (λ r. (c ∷ r.0, r.1)) t)

skip_blanks-All :
    (blanks rest : Bytes)
    → All (λ c. is_blank c ≡ true) blanks
    → skip_blanks (blanks ++ rest) ≡ skip_blanks rest
unfolding skip_blanks
skip_blanks-All [] rest h = refl
skip_blanks-All (c ∷ cs) rest h = rw (h.0) (skip_blanks-All cs rest h.1)

skip_blanks-cons : (c : ℕ) (cs : Bytes) → is_blank c ≡ false → skip_blanks (c ∷ cs) ≡ c ∷ cs
unfolding skip_blanks
skip_blanks-cons c cs h = rw h refl

ends_key-is_blank : (c : ℕ) → is_blank c ≡ true → ends_key c ≡ true
ends_key-is_blank c h = ground arith

not_ends_key : (c : ℕ) → ends_key c ≡ false → is_blank c ≡ false
not_ends_key c h = ground arith

-- Blanks in front of a `=` end a key.
blanks-Stops :
    (blanks rest : Bytes)
    → All (λ c. is_blank c ≡ true) blanks
    → Stops ends_key (blanks ++ b'=' ∷ rest)
blanks-Stops [] rest h = Stops-cons ends_key b'=' rest refl
blanks-Stops (c ∷ cs) rest h = Stops-cons ends_key c _ (ends_key-is_blank c h.0)

-- Blanks, or the end of the text, end a value.
last_blanks-Stops :
    (blanks rest : Bytes)
    → All (λ c. is_blank c ≡ true) blanks
    → (rest ≡ []) ⊎ (blanks ≢ [])
    → Stops is_blank (blanks ++ rest)
last_blanks-Stops [] rest h (inl e) = rw e (Stops-empty is_blank)
last_blanks-Stops [] rest h (inr n) = absurd (n refl)
last_blanks-Stops (c ∷ cs) rest h e = Stops-cons is_blank c (cs ++ rest) h.0

-- One option of the text.
split_loop_step :
    (fuel : ℕ) (o : OptionText) (rest : Bytes) (pairs : Pairs)
    → IsWritten o
    → (rest ≡ []) ⊎ (o.last ≢ [])
    → split_loop (suc fuel) (text_of o rest) pairs
      ≡ split_loop fuel
          (skip_blanks rest)
          (insert (o.key.0 ∷ o.key.1) (o.value.0 ∷ o.value.1) pairs)
unfolding split_loop after_key read_value
split_loop_step fuel o rest pairs w e =
    let key = o.key.0 ∷ o.key.1 in
    let value = o.value.0 ∷ o.value.1 in
    let r3 = o.last ++ rest in
    let r2 = o.behind ++ (value ++ r3) in
    let t : token ends_key (key ++ (o.before ++ b'=' ∷ r2)) ≡ (key, o.before ++ b'=' ∷ r2) =
      token-All ends_key key _ w.key_chars (blanks-Stops o.before r2 w.before_blank) in
    let v : token is_blank (skip_blanks r2) ≡ (value, r3) =
      ap (token is_blank) (
        skip_blanks-All o.behind (value ++ r3) w.behind_blank
        ∙ skip_blanks-cons o.value.0 _ w.value_chars.0)
      ∙ token-All is_blank value r3 w.value_chars (last_blanks-Stops o.last rest w.last_blank e) in
    ap (λ k. after_key k.0 pairs (split_loop fuel) k.1) t
    ∙ (ap (read_value key pairs (split_loop fuel))
          (skip_blanks-All o.before (b'=' ∷ r2) w.before_blank ∙ skip_blanks-cons b'=' r2 refl)
        ∙ (ap (λ x. split_loop fuel (skip_blanks x.1) (insert key x.0 pairs)) v
            ∙ ap (λ x. split_loop fuel x (insert key value pairs))
                (skip_blanks-All o.last rest w.last_blank)))

abbrev pub text_of_all : List OptionText → Bytes
text_of_all [] = []
text_of_all (o ∷ os) = text_of o (text_of_all os)

-- Blanks stand behind every option but the last.
abbrev pub Separated : List OptionText → Type 0
Separated [] = Unit
Separated (o ∷ []) = IsWritten o
Separated (o ∷ p ∷ os) = IsWritten o × (o.last ≢ []) × Separated (p ∷ os)

-- The pairs in the order of the text, a later one in place of an earlier one of its key.
abbrev pub pairs_of : List OptionText → Pairs → Pairs
pairs_of [] pairs = pairs
pairs_of (o ∷ os) pairs = pairs_of os (insert (o.key.0 ∷ o.key.1) (o.value.0 ∷ o.value.1) pairs)

-- The text of options starts with a key, not with a blank.
starts : (os : List OptionText) → Separated os → skip_blanks (text_of_all os) ≡ text_of_all os
unfolding skip_blanks
starts [] w = refl
starts (o ∷ []) w = skip_blanks-cons o.key.0 _ (not_ends_key o.key.0 w.key_chars.0)
starts (o ∷ p ∷ os) w = skip_blanks-cons o.key.0 _ (not_ends_key o.key.0 (w.0).key_chars.0)

split_loop_end :
    (fuel : ℕ) (pairs : Pairs) → 0 < fuel → split_loop fuel (skip_blanks []) pairs ≡ ok pairs
unfolding split_loop skip_blanks
split_loop_end zero pairs h = absurd (omega arith)
split_loop_end (suc fuel) pairs h = refl

split_loop_all :
    (fuel : ℕ) (os : List OptionText) (pairs : Pairs)
    → length os < fuel
    → Separated os
    → split_loop fuel (text_of_all os) pairs ≡ ok (pairs_of os pairs)
unfolding split_loop
split_loop_all zero os pairs h w = absurd (omega arith)
split_loop_all (suc fuel) [] pairs h w = refl
split_loop_all (suc fuel) (o ∷ []) pairs h w =
    split_loop_step fuel o [] pairs w (inl refl) ∙ split_loop_end fuel _ (omega arith)
split_loop_all (suc fuel) (o ∷ p ∷ os) pairs h w =
    split_loop_step fuel o (text_of_all (p ∷ os)) pairs w.0 (inr w.1)
    ∙ (ap (λ t. split_loop fuel t (insert (o.key.0 ∷ o.key.1) (o.value.0 ∷ o.value.1) pairs))
          (starts (p ∷ os) w.2)
        ∙ split_loop_all fuel (p ∷ os) _ (omega arith) w.2)

length-text_of_all : (os : List OptionText) → length os ≤ length (text_of_all os)
length-text_of_all [] = omega arith
length-text_of_all (o ∷ os) =
    let r3 = o.last ++ text_of_all os in
    let r2 = o.behind ++ ((o.value.0 ∷ o.value.1) ++ r3) in
    omega (
      arith,
      length-text_of_all os,
      length-append o.key.1 (o.before ++ b'=' ∷ r2),
      length-append o.before (b'=' ∷ r2),
      length-append o.behind ((o.value.0 ∷ o.value.1) ++ r3),
      length-append o.value.1 r3,
      length-append o.last (text_of_all os),
    )

-- For a text of options, each with a key without blank and `=`, a value without blank, any blanks at
-- the start and around the `=`, and blanks behind every option but perhaps the last, split_pairs returns
-- the pairs as they are written, a later one in place of an earlier one of its key, added to those it
-- is given.
pub split_pairs-text :
    (lead : Bytes) (os : List OptionText) (pairs : Pairs)
    → All (λ c. is_blank c ≡ true) lead
    → Separated os
    → split_pairs (lead ++ text_of_all os) pairs ≡ ok (pairs_of os pairs)
unfolding split_pairs
split_pairs-text lead os pairs h w =
    ap (λ t. split_loop (suc (length (lead ++ text_of_all os))) t pairs)
      (skip_blanks-All lead (text_of_all os) h ∙ starts os w)
    ∙ split_loop_all (suc (length (lead ++ text_of_all os))) os pairs
        (omega (arith, length-text_of_all os, length-append lead (text_of_all os))) w
