-- ===== src/Sim/Rfs/Pairs.antt =====
-- src/sim/simulator_rfs.cpp: the loop of acquire over the channels.
use feed_core.Prelude.{
  ℕ, zero, suc, ◌+◌, ◌*◌, ◌%◌, ◌≡◌, ◌<◌, ◌≤◌, refl, sym, ap, ◌∙◌, arith, List, ltb, ◌==◌, ◌&&◌,
  length, length-set, set, get_or, get_or-set_self, get_or-set_ne, Bool-cases, inl, inr, ltb→lt,
  if◌then◌else◌, subst,
}
use feed_core.Prelude.Bits.{bit}
use feed_core.Sim.Rfs.{keep_word, pairs}

-- The value of a channel, which is the bit b of the mask.
abbrev pub channel :
    {Double : Type 0} → (Double → Double → ℕ) → (Double → Double → ℕ) → ℕ → Double → Double → ℕ
channel i_word q_word b t pha = if b % 2 == 1 then i_word t pha else q_word t pha

module _ (mask : ℕ) where
  -- The index goes on where a channel is kept and there is room, and never goes back.
  keep_word-advance : (b word : ℕ) (a : ℕ × List ℕ) → a.0 ≤ (keep_word mask b word a).0
  unfolding keep_word
  keep_word-advance b word (i, arr) = ground arith

  keep_word-progress :
      (b word : ℕ) (a : ℕ × List ℕ)
      → bit mask b ≡ 1
      → a.0 < length a.1
      → a.0 < (keep_word mask b word a).0
  unfolding keep_word
  keep_word-progress b word (i, arr) e h = ground arith

  length-keep_word : (b word : ℕ) (a : ℕ × List ℕ) → length (keep_word mask b word a).1 ≡ length a.1
  unfolding keep_word
  length-keep_word b word (i, arr) = elim (Bool-cases ((bit mask b == 1) && ltb i (length arr))) [
    | inl e ↦ rw e (length-set arr i word)
    | inr e ↦ rw e refl
  ]

module _ {Double : Type 0} (i_word q_word : Double → Double → ℕ) (turn : Double → Double)
    (mask : ℕ) where
  -- The word is the value of a kept channel at some phase and at a time that is one of some times.
  pub record IsSample (At : Double → Type 0) (word : ℕ) : Type 0 where
    pub time : Double
    pub at : At time
    pub phase : Double
    pub channel_bit : ℕ
    pub low : channel_bit < 12
    pub kept : bit mask channel_bit ≡ 1
    pub sampled : word ≡ channel i_word q_word channel_bit time phase

  -- An array of len words whose words below an index are samples.
  abbrev pub Sampled : (Double → Type 0) → ℕ → ℕ × List ℕ → Type 0
  Sampled At len (i, arr) =
      (length arr ≡ len) × ((k : ℕ) → k < i → k < length arr → IsSample At (get_or arr k 0))

  -- More times.
  pub Sampled-map :
      (At After : Double → Type 0) (len : ℕ) (a : ℕ × List ℕ)
      → ((t : Double) → At t → After t)
      → Sampled At len a
      → Sampled After len a
  Sampled-map At After len (i, arr) f h = (
    h.0,
    λ k u v.
        let s = h.1 k u v in
        record {
          time = s.time;
          at = f s.time s.at;
          phase = s.phase;
          channel_bit = s.channel_bit;
          low = s.low;
          kept = s.kept;
          sampled = s.sampled;
        },
  )

  keep_word-Sampled :
      (At : Double → Type 0) (len b : ℕ) (t pha : Double) (word : ℕ) (a : ℕ × List ℕ)
      → At t
      → b < 12
      → word ≡ channel i_word q_word b t pha
      → Sampled At len a
      → Sampled At len (keep_word mask b word a)
  unfolding keep_word
  keep_word-Sampled At len b t pha word (i, arr) here_at l w h =
      elim (Bool-cases ((bit mask b == 1) && ltb i (length arr))) [
        | inr e ↦ rw e h
        | inl e ↦ rw e (
          length-set arr i word ∙ h.0,
          λ k u v. elim (Bool-cases (k == i)) [
            | inl s ↦
                let eq : i ≡ k = ground arith in
                let here : get_or (set arr i word) k 0 ≡ word =
                  ap (λ j. get_or (set arr i word) j 0) (sym eq)
                  ∙ get_or-set_self arr i word 0 (omega (arith, v, length-set arr i word)) in
                record {
                  time = t;
                  at = here_at;
                  phase = pha;
                  channel_bit = b;
                  low = l;
                  kept = ground arith;
                  sampled = here ∙ w;
                }
            | inr s ↦
                subst (IsSample At) (sym (get_or-set_ne arr i k word 0 (ground arith)))
                  (h.1 k (ground arith) (omega (arith, v, length-set arr i word)))
          ],
        )
      ]

  pub pairs-Sampled :
      (At : Double → Type 0) (len n : ℕ) (t pha : Double) (a : ℕ × List ℕ)
      → At t
      → n ≤ 6
      → Sampled At len a
      → Sampled At len (pairs i_word q_word turn n mask t pha a)
  unfolding pairs
  pairs-Sampled At len zero t pha a now l h = h
  pairs-Sampled At len (suc n) t pha a now l h =
      pairs-Sampled At len n t (turn pha) _ now (omega arith) (
        keep_word-Sampled At len (2 * n) t pha (q_word t pha) _ now (omega arith) (q_channel n) (
          keep_word-Sampled At len (2 * n + 1) t pha (i_word t pha) a now (omega arith)
            (i_channel n) h))
    where
      q_channel : (n : ℕ) → q_word t pha ≡ channel i_word q_word (2 * n) t pha
      q_channel n = ground arith

      i_channel : (n : ℕ) → i_word t pha ≡ channel i_word q_word (2 * n + 1) t pha
      i_channel n = ground arith

  pairs-advance :
      (n : ℕ) (t pha : Double) (a : ℕ × List ℕ) → a.0 ≤ (pairs i_word q_word turn n mask t pha a).0
  unfolding pairs
  pairs-advance zero t pha a = omega arith
  pairs-advance (suc n) t pha a =
      let one = keep_word mask (2 * n + 1) (i_word t pha) a in
      let two = keep_word mask (2 * n) (q_word t pha) one in
      omega (
        arith,
        keep_word-advance mask (2 * n + 1) (i_word t pha) a,
        keep_word-advance mask (2 * n) (q_word t pha) one,
        pairs-advance n t (turn pha) two,
      )

  -- A kept channel among the pairs takes a word, when there is room.
  pub pairs-progress :
      (n : ℕ) (t pha : Double) (a : ℕ × List ℕ) (b : ℕ)
      → b < 2 * n
      → bit mask b ≡ 1
      → a.0 < length a.1
      → a.0 < (pairs i_word q_word turn n mask t pha a).0
  unfolding pairs
  pairs-progress zero t pha a b l e h = absurd (omega arith)
  pairs-progress (suc n) t pha a b l e h =
      let one = keep_word mask (2 * n + 1) (i_word t pha) a in
      let two = keep_word mask (2 * n) (q_word t pha) one in
      let up_one = keep_word-advance mask (2 * n + 1) (i_word t pha) a in
      let up_two = keep_word-advance mask (2 * n) (q_word t pha) one in
      let len_one = length-keep_word mask (2 * n + 1) (i_word t pha) a in
      let len_two = length-keep_word mask (2 * n) (q_word t pha) one in
      let up = pairs-advance n t (turn pha) two in
      let rest = pairs-progress n t (turn pha) two b in
      let at_one = keep_word-progress mask (2 * n + 1) (i_word t pha) a in
      let at_two = keep_word-progress mask (2 * n) (q_word t pha) one in
      elim (Bool-cases (b == 2 * n + 1)) [
        | inl c ↦
            let s : b ≡ 2 * n + 1 = ground arith in
            omega (arith, up_two, up, at_one (subst (λ k. bit mask k ≡ 1) s e) h)
        | inr c ↦ elim (Bool-cases (ltb one.0 (length one.1))) [
          | inr r ↦
              let full : length one.1 ≤ one.0 = ground arith in
              omega (arith, full, up_two, up, len_one)
          | inl r ↦
              let room : one.0 < length one.1 = ground arith in
              elim (Bool-cases (b == 2 * n)) [
                | inl d ↦
                    let s : b ≡ 2 * n = ground arith in
                    omega (arith, up_one, up, at_two (subst (λ k. bit mask k ≡ 1) s e) room)
                | inr d ↦ elim (Bool-cases (ltb two.0 (length two.1))) [
                  | inr g ↦
                      let full : length two.1 ≤ two.0 = ground arith in
                      omega (arith, full, up, len_one, len_two)
                  | inl g ↦
                      let low : b < 2 * n = ground arith in
                      omega (arith, up_one, up_two, rest low e (ltb→lt two.0 (length two.1) g))
                ]
              ]
        ]
      ]
