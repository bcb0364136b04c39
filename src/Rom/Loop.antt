-- ===== src/Rom/Loop.antt =====
-- The fuel of the loop of `parse`.
use feed_core.Prelude.{
  ℕ, zero, suc, ◌*◌, ◌/◌, ◌%◌, ◌^◌, ◌<◌, ◌≡◌, ◌≢◌, refl, Bool, List, [], ◌∷◌, arith, Bytes, length,
  drop, length-drop, take, ltb, leb, ◌==◌, if◌then◌else◌,
}
use feed_core.Prelude.Exn.{runtime_error, fuel_out, Result, ok, err, ◌>>=◌}
use feed_core.Prelude.Words.{be32}
use feed_core.Rom.{Codec, RomDescriptor, type_of_code, decode, parse_loop, parse, contents}

module _ (codec : Codec) where
  -- Any fuel above the length gives the same result.
  pub parse_loop-fuel :
      (f g : ℕ) (swap : Bool) (buf : Bytes)
      → length buf < f
      → length buf < g
      → parse_loop codec f swap buf ≡ parse_loop codec g swap buf
  unfolding parse_loop
  parse_loop-fuel zero g swap buf p q = absurd (omega arith)
  parse_loop-fuel (suc f) zero swap buf p q = absurd (omega arith)
  parse_loop-fuel (suc f) (suc g) swap [] p q = refl
  parse_loop-fuel (suc f) (suc g) swap (a ∷ []) p q = refl
  parse_loop-fuel (suc f) (suc g) swap (a ∷ b ∷ []) p q = refl
  parse_loop-fuel (suc f) (suc g) swap (a ∷ b ∷ c ∷ []) p q = refl
  parse_loop-fuel (suc f) (suc g) swap (a ∷ b ∷ c ∷ d ∷ rest) p q =
      let ih : (n : ℕ)
          → parse_loop codec f swap (drop n rest) ≡ parse_loop codec g swap (drop n rest) =
        λ n.
          parse_loop-fuel f g swap (drop n rest) (omega (arith, length-drop n rest))
            (omega (arith, length-drop n rest)) in
      simp ih

  pub parse_loop-ne-fuel_out :
      ((c : Bytes) → codec.zinflate c ≢ err fuel_out)
      → (f : ℕ) (swap : Bool) (buf : Bytes) → length buf < f
      → parse_loop codec f swap buf ≢ err fuel_out
  unfolding parse_loop decode
  parse_loop-ne-fuel_out z zero swap buf p = absurd (omega arith)
  parse_loop-ne-fuel_out z (suc f) swap [] p = ground arith
  parse_loop-ne-fuel_out z (suc f) swap (a ∷ []) p = ground arith
  parse_loop-ne-fuel_out z (suc f) swap (a ∷ b ∷ []) p = ground arith
  parse_loop-ne-fuel_out z (suc f) swap (a ∷ b ∷ c ∷ []) p = ground arith
  parse_loop-ne-fuel_out z (suc f) swap (a ∷ b ∷ c ∷ d ∷ rest) p =
      let ih : (n : ℕ) → parse_loop codec f swap (drop n rest) ≢ err fuel_out =
        λ n. parse_loop-ne-fuel_out z f swap (drop n rest) (omega (arith, length-drop n rest)) in
      grind (arith, ih, z)

  -- One descriptor behind its header word, without fuel.
  unfoldable pub after_header : Bool → ℕ → Bytes → Result (List RomDescriptor)
  after_header swap val rest =
      let type = type_of_code (val / 2 ^ 14) in
      let size = val % 2 ^ 14 * 4 in
      if leb (2 ^ 16) val
      then err (runtime_error "Does not look like ROM contents (high word set)" [])
      else if val / 2 ^ 14 == 0
      then ok []
      else if ltb (length rest) size
      then ok []
      else decode codec type (contents swap (take size rest)) >>= λ v.
          parse codec swap (drop size rest) >>= λ infos.
          ok (record { type = type; value = v } ∷ infos)

  pub parse-after_header :
      (swap : Bool) (a b c d : ℕ) (rest : Bytes)
      → parse codec swap (a ∷ b ∷ c ∷ d ∷ rest)
        ≡ after_header swap (if swap then be32 a b c d else be32 d c b a) rest
  unfolding parse
  parse-after_header swap a b c d rest =
      let ih : (n : ℕ)
          → parse_loop codec (suc (suc (suc (suc (length rest))))) swap (drop n rest)
            ≡ parse_loop codec (suc (length (drop n rest))) swap (drop n rest) =
        λ n.
          parse_loop-fuel _ _ swap (drop n rest) (omega (arith, length-drop n rest))
            (omega arith) in
      unfold parse_loop after_header in simp ih

  -- `parse` never runs out of fuel, when zinflate does not: on every buffer it returns or throws.
  pub parse-ne-fuel_out :
      ((c : Bytes) → codec.zinflate c ≢ err fuel_out)
      → (swap : Bool) (buf : Bytes) → parse codec swap buf ≢ err fuel_out
  unfolding parse
  parse-ne-fuel_out z swap buf = parse_loop-ne-fuel_out z (suc (length buf)) swap buf (omega arith)
