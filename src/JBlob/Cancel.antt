-- ===== src/JBlob/Cancel.antt =====
-- The callbacks that stop a parse, and the depth that they keep to.
use feed_core.Prelude.{
  ℕ, ◌+◌, ◌≤◌, ◌≡◌, ◌≢◌, ◌↔◌, ◌⊎◌, inl, inr, refl, true, false, List, [], ◌∷◌, Option, none, some,
  arith, Bytes, Bool-cases, ltb, ◌==◌, if◌then◌else◌, ◌∙◌, subst,
}
use feed_core.Prelude.Int.{ℤ}
use feed_core.Prelude.Exn.{Exn, runtime_error, err}
use feed_core.Rom.{until_nul}
use feed_core.JBlob.{
  Context, JsonEvent, null, boolean, integer, double, string, start_map, map_key, end_map, Yajl,
  jblob_integer, set_integer, jblob_string, jblob_start_map, jblob_map_key, jblob_end_map,
  end_definition, callback, run, parse, parse_buffer, initial, rethrow,
}

-- What a callback refuses: a third level of objects, an empty key, a key outside the two levels,
-- and an end without a start.
abbrev pub Refused : ℕ → JsonEvent → Type 0
Refused depth null = ⊥
Refused depth (boolean b) = ⊥
Refused depth (integer v) = ⊥
Refused depth double = ⊥
Refused depth (string v) = ⊥
Refused depth start_map = 2 ≤ depth
Refused depth (map_key []) = Unit {0}
Refused depth (map_key (k ∷ ks)) = (depth ≢ 1) × (depth ≢ 2)
Refused depth end_map = depth ≡ 0

-- The messages of the four refusals, as `parse` throws them.
abbrev pub IsRefusal : Exn → Type 0
IsRefusal e =
    (e ≡ runtime_error "Object depth limit (2) exceeded" [])
    ⊎ (e ≡ runtime_error "Zero length key not allowed" [])
    ⊎ (e ≡ runtime_error "key at unsupported depth" [])
    ⊎ (e ≡ runtime_error "Object depth underflow" [])

set_integer-depth :
    (c : Context) (v : ℤ)
    → ((set_integer c v).depth ≡ c.depth) × ((set_integer c v).error ≡ c.error)
unfolding set_integer
set_integer-depth c v = ground arith

jblob_integer-depth :
    (c : Context) (v : ℤ)
    → ((jblob_integer c v).depth ≡ c.depth) × ((jblob_integer c v).error ≡ c.error)
unfolding jblob_integer
jblob_integer-depth c v = ground (arith, set_integer-depth c v)

ended_error : (c : Context) → (if c.depth == 2 then end_definition c else c).error ≡ c.error
unfolding end_definition
ended_error c = ground arith

module _ (parse_int32 : Bytes → Option ℤ) where
  jblob_string-depth :
      (c : Context) (v : Bytes)
      → ((jblob_string parse_int32 c v).depth ≡ c.depth)
        × ((jblob_string parse_int32 c v).error ≡ c.error)
  unfolding jblob_string
  jblob_string-depth c v = grind (arith, jblob_integer-depth)

  -- A callback stops the parse exactly when the event is refused at the current depth.
  pub callback-Refused :
      (c : Context) (e : JsonEvent) → ((callback parse_int32 c e).1 ≡ false) ↔ Refused c.depth e
  unfolding callback jblob_start_map jblob_map_key jblob_end_map
  callback-Refused c null = ground arith
  callback-Refused c (boolean b) = ground arith
  callback-Refused c (integer v) = ground arith
  callback-Refused c double = ground arith
  callback-Refused c (string v) = ground arith
  callback-Refused c start_map = ground arith
  callback-Refused c (map_key []) = ground arith
  callback-Refused c (map_key (k ∷ ks)) = ground arith
  callback-Refused c end_map = ground arith

  -- Going on leaves no error and at most two levels; stopping leaves the error of this callback.
  callback-error :
      (c : Context) (e : JsonEvent)
      → c.error ≡ none
      → c.depth ≤ 2
      → let r = callback parse_int32 c e in
        ((r.1 ≡ true) × (r.0.error ≡ none) × (r.0.depth ≤ 2))
        ⊎ ((r.1 ≡ false) × (x : Exn) × (r.0.error ≡ some x) × IsRefusal (rethrow (some x)))
  unfolding callback jblob_start_map jblob_map_key jblob_end_map end_definition rethrow
  callback-error c null h d = inl (refl, h, d)
  callback-error c (boolean b) h d = inl (refl, h, d)
  callback-error c (integer v) h d =
      inl (refl, ground (arith, jblob_integer-depth c v), ground (arith, jblob_integer-depth c v))
  callback-error c double h d = inl (refl, h, d)
  callback-error c (string v) h d =
      inl (refl, ground (arith, jblob_string-depth c v), ground (arith, jblob_string-depth c v))
  callback-error c start_map h d = elim (Bool-cases (ltb 2 (c.depth + 1))) [
    | inl deep ↦ rw (deep, h) (inr (refl, _, refl, inl refl))
    | inr flat ↦ rw flat (inl (refl, h, ground arith))
  ]
  callback-error c (map_key []) h d = rw h (inr (refl, _, refl, inr (inl refl)))
  callback-error c (map_key (k ∷ ks)) h d = elim (Bool-cases (c.depth == 1)) [
    | inl one ↦ rw one (inl (refl, h, d))
    | inr not_one ↦ elim (Bool-cases (c.depth == 2)) [
      | inl two ↦ rw (not_one, two) (inl (refl, h, d))
      | inr deep ↦ rw (not_one, deep, h) (inr (refl, _, refl, inr (inr (inl refl))))
    ]
  ]
  callback-error c end_map h d = elim (Bool-cases (c.depth == 0)) [
    | inl outside ↦
        let other : (c.depth == 2) ≡ false = ground arith in
        rw (outside, other, h) (inr (refl, _, refl, inr (inr (inr refl))))
    | inr inside ↦ rw inside (inl (refl, ended_error c ∙ h, ground arith))
  ]

  run-error :
      (c : Context) (es : List JsonEvent)
      → c.error ≡ none
      → c.depth ≤ 2
      → let r = run parse_int32 c es in
        ((r.1 ≡ true) × (r.0.depth ≤ 2)) ⊎ ((r.1 ≡ false) × IsRefusal (rethrow r.0.error))
  unfolding run
  run-error c [] h d = inl (refl, d)
  run-error c (e ∷ es) h d = elim (callback-error c e h d) [
    | inl (on, fine, low) ↦ rw on (run-error (callback parse_int32 c e).0 es fine low)
    | inr (stop, x, kept, refusal) ↦ rw (stop, kept) (inr (refl, refusal))
  ]

-- `parse` returns a blob or throws; what it throws is yajl's message for a malformed text, or one of
-- the four messages of the callbacks.
pub parse_error :
    (yajl : Yajl) (parse_int32 : Bytes → Option ℤ) (buf : Bytes) (e : Exn)
    → parse yajl parse_int32 buf ≡ err e
    → (yajl.malformed (until_nul buf) ≡ some e) ⊎ IsRefusal e
unfolding parse parse_buffer
parse_error yajl parse_int32 buf e h =
    elim (run-error parse_int32 initial (yajl.events (until_nul buf)) refl (omega arith)) [
      | inl (on, _) ↦ inl (ground arith)
      | inr (stop, refusal) ↦
          let same : rethrow (run parse_int32 initial (yajl.events (until_nul buf))).0.error ≡ e =
            ground arith in
          inr (subst IsRefusal same refusal)
    ]
