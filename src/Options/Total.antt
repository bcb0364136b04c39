-- ===== src/Options/Total.antt =====
-- src/driver/devutil.cpp: the ends of split_pairs.
use feed_core.Prelude.{
  ℕ, zero, suc, ◌+◌, ◌≡◌, ◌<◌, ◌≤◌, Bool, [], ◌∷◌, ◌==◌, Bytes, arith, length, if-elim,
}
use feed_core.Prelude.Exn.{runtime_error, Result, ok, err}
use feed_core.Options.{
  is_blank, ends_key, skip_blanks, token, read_value, after_key, split_loop, split_pairs, Pairs,
}

length-skip_blanks : (text : Bytes) → length (skip_blanks text) ≤ length text
unfolding skip_blanks
length-skip_blanks [] = omega arith
length-skip_blanks (c ∷ cs) = ground (arith, length-skip_blanks cs)

length-token :
    (ends : ℕ → Bool) (text : Bytes)
    → length (token ends text).0 + length (token ends text).1 ≡ length text
unfolding token
length-token ends [] = omega arith
length-token ends (c ∷ cs) = ground (arith, length-token ends cs)

-- A call that ends: with pairs, or with one of the two messages.
pub data IsEnded : Result Pairs → Type 0 where
  returned : (pairs : Pairs) → IsEnded (ok pairs)
  no_equals : IsEnded (err (runtime_error "Missing expected '=' at " []))
  no_key : IsEnded (err (runtime_error "Zero length key value not allowed" []))

-- The calls for texts shorter than n end.
abbrev IsEnough : ℕ → (Bytes → Pairs → Result Pairs) → Type 0
IsEnough n more = (text : Bytes) (pairs : Pairs) → length text < n → IsEnded (more text pairs)

read_value-IsEnded :
    (n : ℕ) (key : Bytes) (pairs : Pairs) (more : Bytes → Pairs → Result Pairs) (text : Bytes)
    → IsEnough n more
    → length text ≤ n
    → IsEnded (read_value key pairs more text)
unfolding read_value
read_value-IsEnded n key pairs more [] h l = no_equals
read_value-IsEnded n key pairs more (c ∷ cs) h l =
    if-elim IsEnded (c == b'=') _ _
      (h _ _ (
        omega (
          arith,
          length-skip_blanks (token is_blank (skip_blanks cs)).1,
          length-token is_blank (skip_blanks cs),
          length-skip_blanks cs,
        )))
      no_equals

after_key-IsEnded :
    (n : ℕ) (key : Bytes) (pairs : Pairs) (more : Bytes → Pairs → Result Pairs) (text : Bytes)
    → IsEnough n more
    → length text ≤ n
    → IsEnded (after_key key pairs more text)
unfolding after_key
after_key-IsEnded n [] pairs more text h l = no_key
after_key-IsEnded n (k ∷ ks) pairs more text h l =
    read_value-IsEnded n (k ∷ ks) pairs more (skip_blanks text) h
      (omega (arith, length-skip_blanks text))

split_loop-IsEnough : (fuel : ℕ) → IsEnough fuel (split_loop fuel)
unfolding split_loop
split_loop-IsEnough zero text pairs l = absurd (omega arith)
split_loop-IsEnough (suc fuel) [] pairs l = returned pairs
split_loop-IsEnough (suc fuel) (c ∷ cs) pairs l =
    after_key-IsEnded fuel (token ends_key (c ∷ cs)).0 pairs (split_loop fuel)
      (token ends_key (c ∷ cs)).1 (split_loop-IsEnough fuel)
      (omega (arith, length-token ends_key (c ∷ cs)))

-- On every text split_pairs returns pairs, or throws one of its two messages, that an '=' is missing or
-- that a key is empty: the model does not run out of fuel.
pub split_pairs-IsEnded : (text : Bytes) (pairs : Pairs) → IsEnded (split_pairs text pairs)
unfolding split_pairs
split_pairs-IsEnded text pairs =
    split_loop-IsEnough (suc (length text)) (skip_blanks text) pairs
      (omega (arith, length-skip_blanks text))
