-- ===== src/Rom/Contents.antt =====
-- The layout of a descriptor's contents: two bytes to a word, padded to whole words.
use feed_core.Prelude.{
  ◌*◌, ◌%◌, ◌≡◌, ◌≢◌, refl, ap, [], ◌∷◌, ◌++◌, true, arith, Bytes, length, All, length-append,
}
use feed_core.Rom.{contents, spread, pad_even, until_nul}

pub length-spread : (c : Bytes) → length c % 2 ≡ 0 → length (spread c) ≡ length c * 2
unfolding spread
length-spread [] h = omega arith
length-spread (a ∷ []) h = absurd (omega arith)
length-spread (a ∷ b ∷ c) h = omega (arith, length-spread c (omega arith))

-- Reading back what `prepare` lays out.
pub contents-spread : (c : Bytes) → length c % 2 ≡ 0 → contents true (spread c) ≡ c
unfolding contents spread
contents-spread [] h = refl
contents-spread (a ∷ []) h = absurd (omega arith)
contents-spread (a ∷ b ∷ c) h = ap (λ t. a ∷ b ∷ t) (contents-spread c (omega arith))

pub pad_even-even : (c : Bytes) → length (pad_even c) % 2 ≡ 0
unfolding pad_even
pad_even-even c = ground (arith, length-append c (0 ∷ []))

-- No byte is NUL.
abbrev pub NoNul : Bytes → Type 0
NoNul = All (λ b. b ≢ 0)

until_nul-append : (c pad : Bytes) → NoNul c → until_nul (c ++ 0 ∷ pad) ≡ c
unfolding until_nul
until_nul-append [] pad h = refl
until_nul-append (x ∷ c) pad h = ground (arith, until_nul-append c pad h.1)

until_nul-lem : (c : Bytes) → NoNul c → until_nul c ≡ c
unfolding until_nul
until_nul-lem [] h = refl
until_nul-lem (x ∷ c) h = ground (arith, until_nul-lem c h.1)

pub until_nul-pad_even : (c : Bytes) → NoNul c → until_nul (pad_even c) ≡ c
unfolding pad_even
until_nul-pad_even c h = ground (arith, until_nul-append c [] h, until_nul-lem c h)
