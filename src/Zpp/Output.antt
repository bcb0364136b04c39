-- ===== src/Zpp/Output.antt =====
-- The buffer of src/util/zpp.cpp, which grows by 128 bytes a round, against what zlib wrote.
use feed_core.Prelude.{
  ℕ, zero, suc, ◌+◌, ◌-◌, ◌≡◌, ◌≤◌, refl, sym, ap, ◌∙◌, Bool, [], ◌∷◌, ◌++◌, append_assoc,
  append-nil, Bytes, arith, length, length-append, length-take, length-drop, length-replicate, take,
  take-append, drop, replicate,
}
use feed_core.Prelude.Exn.{Exn, fuel_out, Result, ok, err, ◌>>=◌}
use feed_core.Zpp.{
  ZCode, z_ok, stream_end, z_error, Zlib, resize_bytes, write_at, inc, is_empty_input, step_error,
  check, pump, compress,
}

resize_prefix :
    (n : ℕ) (acc tail : Bytes)
    → resize_bytes (length acc + n) (acc ++ tail) ≡ acc ++ resize_bytes n tail
unfolding resize_bytes
resize_prefix n [] tail = ap (λ k. resize_bytes k tail) (omega arith)
resize_prefix n (x ∷ acc) tail =
    let e : suc (length acc) + n ≡ suc (length acc + n) = omega arith in
    let d : suc (length acc + n) - suc (length (acc ++ tail))
        ≡ length acc + n - length (acc ++ tail) =
      omega arith in
    ap (λ k. take k (x ∷ (acc ++ tail)) ++ replicate (k - suc (length (acc ++ tail))) 0) e
    ∙ (ap (λ k. x ∷ (take (length acc + n) (acc ++ tail) ++ replicate k 0)) d
        ∙ ap (◌∷◌ x) (resize_prefix n acc tail))

write_prefix :
    (made acc tail : Bytes)
    → write_at (length acc) made (acc ++ tail) ≡ acc ++ (made ++ drop (length made) tail)
unfolding write_at
write_prefix made [] tail = refl
write_prefix made (x ∷ acc) tail = ap (◌∷◌ x) (write_prefix made acc tail)

length-resize_bytes : (n : ℕ) (xs : Bytes) → length (resize_bytes n xs) ≡ n
unfolding resize_bytes
length-resize_bytes n xs =
    length-append (take n xs) _
    ∙ omega (arith, length-take n xs, length-replicate {A = ℕ} (n - length xs) 0)

resize_take : (a b : Bytes) → resize_bytes (length a) (a ++ b) ≡ a
unfolding resize_bytes
resize_take a b =
    let none_missing : length a - length (a ++ b) ≡ 0 = omega (arith, length-append a b) in
    ap (λ k. take (length a) (a ++ b) ++ replicate k 0) none_missing
    ∙ (ap (λ t. t ++ replicate 0 0) (take-append a b) ∙ (unfold replicate in append-nil a))

-- The buffer after one round, from one that starts with `acc`.
round_buffer :
    (acc tail made : Bytes)
    → length made ≤ inc
    → (buf : Bytes) × (write_at (length acc) made (resize_bytes (length acc + inc) (acc ++ tail))
        ≡ (acc ++ made) ++ buf)
      × (length buf ≡ inc - length made)
round_buffer acc tail made h =
    let rest = drop (length made) (resize_bytes inc tail) in
    (
      rest,
      ap (write_at (length acc) made) (resize_prefix inc acc tail)
          ∙ (write_prefix made acc (resize_bytes inc tail) ∙ sym (append_assoc acc made rest)),
      length-drop (length made) (resize_bytes inc tail)
          ∙ ap (λ k. k - length made) (length-resize_bytes inc tail),
    )

-- The buffer after the last round, cut to what is used.
last_buffer :
    (acc made buf out : Bytes)
    → length made ≤ inc
    → out ≡ (acc ++ made) ++ buf
    → length buf ≡ inc - length made
    → resize_bytes (length out - (inc - length made)) out ≡ acc ++ made
last_buffer acc made buf out h e l =
    ap (λ o. resize_bytes (length o - (inc - length made)) o) e
    ∙ (ap (λ k. resize_bytes k ((acc ++ made) ++ buf))
          (omega (arith, length-append (acc ++ made) buf))
        ∙ resize_take (acc ++ made) buf)

module _ {Z : Type 0} (lib : Zlib Z) where
  -- The bytes that zlib writes, call after call, and its state at the end.
  unfoldable pub written : ℕ → Z → Bytes → Result (Bytes × Z)
  written zero s input = err fuel_out
  written (suc fuel) s input =
      let r = lib.step (is_empty_input input) s input inc in
      let more = written fuel r.state r.rest >>= λ m. ok (r.made ++ m.0, m.1) in
      elim r.code [
        | stream_end ↦ ok (r.made, r.state)
        | z_ok ↦ more
        | z_error code ↦ err (step_error lib r.msg code)
      ]

  -- zlib writes no more than the room that it is given.
  unfoldable pub IsBounded : Type 0
  IsBounded =
      (finish : Bool) (s : Z) (input : Bytes) (room : ℕ)
      → length (lib.step finish s input room).made ≤ room

  unfoldable behind : Bytes → Bytes × Z → Result (Bytes × Z)
  behind acc m = ok (acc ++ m.0, m.1)

  behind_more :
      (o : Result (Bytes × Z)) (acc made : Bytes)
      → (o >>= behind (acc ++ made)) ≡ ((o >>= λ m. ok (made ++ m.0, m.1)) >>= behind acc)
  unfolding behind
  behind_more (ok m) acc made = ap (λ t. ok (t, m.1)) (append_assoc acc made m.0)
  behind_more (err e) acc made = refl

  code-cases :
      (c : ZCode) (acc : Bytes) (a b : Result (Bytes × Z)) (f : ℕ → Exn) (x y : Bytes × Z)
      → ok x ≡ (ok y >>= behind acc)
      → a ≡ (b >>= behind acc)
      → (elim c [ stream_end ↦ ok x | z_ok ↦ a | z_error code ↦ err (f code) ])
        ≡ ((elim c [ stream_end ↦ ok y | z_ok ↦ b | z_error code ↦ err (f code) ]) >>= behind acc)
  code-cases stream_end acc a b f x y h k = h
  code-cases z_ok acc a b f x y h k = k
  code-cases (z_error code) acc a b f x y h k = refl

  pump-written :
      (bounded : IsBounded) (fuel : ℕ) (s : Z) (input acc tail : Bytes)
      → pump lib fuel s input (acc ++ tail) (length acc) ≡ (written fuel s input >>= behind acc)
  unfolding pump written IsBounded behind
  pump-written bounded zero s input acc tail = refl
  pump-written bounded (suc fuel) s input acc tail =
      let r = lib.step (is_empty_input input) s input inc in
      let b = round_buffer acc tail r.made (bounded (is_empty_input input) s input inc) in
      code-cases r.code acc _ _ (step_error lib r.msg) _ _
        (ap (λ t. ok (t, r.state))
          (last_buffer acc r.made b.0 _ (bounded (is_empty_input input) s input inc) b.1 b.2))
        (ap (λ o. pump lib fuel r.state r.rest o (length acc + length r.made)) b.1
          ∙ (ap (pump lib fuel r.state r.rest ((acc ++ r.made) ++ b.0))
                (sym (length-append acc r.made))
              ∙ (pump-written bounded fuel r.state r.rest (acc ++ r.made) b.0
                  ∙ behind_more (written fuel r.state r.rest) acc r.made)))

  behind_nothing : (o : Result (Bytes × Z)) → (o >>= behind []) ≡ o
  unfolding behind
  behind_nothing (ok m) = refl
  behind_nothing (err e) = refl

  -- The result of a compression, for a zlib that keeps within the room it is given: whatever the vector
  -- held before and however long it was, it holds the bytes that zlib wrote, call after call, and an
  -- error of any call or of the end is thrown.
  pub compress-written :
      (fuel : ℕ) (out input : Bytes)
      → IsBounded
      → compress lib fuel out input ≡ (
          check lib lib.init_text lib.init.0 >>= λ u. written fuel lib.init.1 input >>= λ r.
          check lib lib.close_text (lib.close r.1) >>= λ u. ok r.0)
  unfolding compress
  compress-written fuel out input bounded =
      ap
        (λ o. check lib lib.init_text lib.init.0 >>= λ u.
          o >>= λ r. check lib lib.close_text (lib.close r.1) >>= λ u. ok r.0)
        (pump-written bounded fuel lib.init.1 input [] out
          ∙ behind_nothing (written fuel lib.init.1 input))
