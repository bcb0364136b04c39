-- ===== src/Sim/Hires/Samples.antt =====
-- src/sim/simulator_hires.cpp: the words that the loops over a waveform store.
use feed_core.Prelude.{
  ℕ, zero, suc, ◌+◌, ◌%◌, ◌^◌, ◌≡◌, ◌<◌, ◌≤◌, sym, ap, ◌∙◌, arith, List, some, ltb, ◌==◌, length,
  length-set, set, get_or, get_or-set_self, get_or-set_ne, Bool-cases, inl, inr, if-elim,
  if◌then◌else◌, subst, not, ◌&&◌,
}
use feed_core.Prelude.Bits.{bit}
use feed_core.Prelude.Maps.{some_injective}
use feed_core.Sim.Hires.{value, signals, rounds}

module _ {Double : Type 0} (advance : ℕ → Double → Double) (pulse : Double → ℕ → ℕ → ℕ → ℕ)
    (rand : ℕ → ℕ) (selected : ℕ) where
  -- The word at k is the value of a chosen signal at some time.
  pub record IsSample (k word : ℕ) : Type 0 where
    pub time : ℕ
    pub phase : Double
    pub signal : ℕ
    pub low : signal < 32
    pub chosen : bit selected signal ≡ 1
    pub sampled : word ≡ value advance pulse rand time phase signal k

  abbrev pub Sampled : ℕ × List ℕ → Type 0
  Sampled (idx, buf) = (k : ℕ) → k < idx → k < length buf → IsSample k (get_or buf k 0)

  sample_stored :
      (sig t : ℕ) (phase : Double) (idx : ℕ) (buf : List ℕ)
      → sig < 32
      → bit selected sig ≡ 1
      → Sampled (idx, buf)
      → Sampled (idx + 1, set buf idx (value advance pulse rand t phase sig idx))
  sample_stored sig t phase idx buf l c h k u v =
      let word = value advance pulse rand t phase sig idx in
      let len : length (set buf idx word) ≡ length buf = length-set buf idx word in
      elim (Bool-cases (k == idx)) [
        | inl e ↦
            let eq : idx ≡ k = ground arith in
            record {
              time = t;
              phase = phase;
              signal = sig;
              low = l;
              chosen = c;
              sampled =
                  ap (λ i. get_or (set buf idx word) i 0) (sym eq)
                  ∙ (get_or-set_self buf idx word 0 (omega (arith, len))
                      ∙ ap (value advance pulse rand t phase sig) eq);
            }
        | inr e ↦
            subst (IsSample k) (sym (get_or-set_ne buf idx k word 0 (ground arith)))
              (h k (ground arith) (omega (arith, len)))
      ]

  signals-Sampled :
      (n sig t : ℕ) (phase : Double) (idx : ℕ) (buf : List ℕ)
      → sig + n ≤ 32
      → Sampled (idx, buf)
      → Sampled (signals advance pulse rand n selected sig t phase idx buf)
  unfolding signals
  signals-Sampled zero sig t phase idx buf l h = h
  signals-Sampled (suc n) sig t phase idx buf l h =
      if-elim Sampled (ltb idx (length buf)) _ (idx, buf)
        (signals-Sampled n (sig + 1) t phase _ _ (omega arith) next) h
    where
      next : Sampled (
        (if bit selected sig == 1 then idx + 1 else idx),
        (if bit selected sig == 1
            then set buf idx (value advance pulse rand t phase sig idx)
            else buf),
      )
      next = elim (Bool-cases (bit selected sig == 1)) [
        | inl e ↦ rw e (sample_stored sig t phase idx buf (omega arith) (ground arith) h)
        | inr e ↦ rw e h
      ]

  pub rounds-Sampled :
      (n decim t : ℕ) (phase : Double) (idx : ℕ) (buf : List ℕ) (out : Double) (r : ℕ × List ℕ)
      → Sampled (idx, buf)
      → rounds advance pulse rand n selected decim t phase idx buf ≡ some (out, r)
      → Sampled r
  unfolding rounds
  rounds-Sampled zero decim t phase idx buf out r h e =
      elim (Bool-cases (not (selected == 0) && ltb idx (length buf))) [
        | inl g ↦ cc
        | inr g ↦
            let f : some (phase, (idx, buf)) ≡ some (out, r) = rw g at e in
            subst Sampled (ap (λ p. p.1) (some_injective f)) h
      ]
  rounds-Sampled (suc n) decim t phase idx buf out r h e =
      elim (Bool-cases (not (selected == 0) && ltb idx (length buf))) [
        | inl g ↦
            let moved = advance decim phase in
            let filled = signals advance pulse rand 32 selected 0 t moved idx buf in
            rounds-Sampled n decim ((t + decim) % 2 ^ 64) moved filled.0 filled.1 out r
              (signals-Sampled 32 0 t moved idx buf (omega arith) h) (rw g at e)
        | inr g ↦
            let f : some (phase, (idx, buf)) ≡ some (out, r) = rw g at e in
            subst Sampled (ap (λ p. p.1) (some_injective f)) h
      ]
