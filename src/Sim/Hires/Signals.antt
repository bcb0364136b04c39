-- ===== src/Sim/Hires/Signals.antt =====
-- src/sim/simulator_hires.cpp: the ends of the loops over a waveform.
use feed_core.Prelude.{
  ℕ, zero, suc, ◌+◌, ◌%◌, ◌^◌, ◌≡◌, ◌<◌, ◌≤◌, refl, ◌∙◌, arith, true, false, List, Option, some,
  ltb, ◌==◌, length, length-set, set, lt→ltb, le→ltb, ltb→lt, subst, not, ◌&&◌, Bool-cases, inl,
  inr, if-elim, if◌then◌else◌,
}
use feed_core.Prelude.Bits.{bit, some_bit}
use feed_core.Sim.Hires.{value, signals, rounds}

-- An outer loop that ended, with every word of the buffer written if a signal is selected.
pub record IsFull {Double : Type 0} (selected : ℕ) (buf : List ℕ)
    (r : Option (Double × (ℕ × List ℕ))) : Type 0 where
  pub out : Double
  pub at : ℕ
  pub filled : List ℕ
  pub ends : r ≡ some (out, (at, filled))
  pub same : length filled ≡ length buf
  pub reached : 0 < selected → length buf ≤ at
  pub idle : selected ≡ 0 → filled ≡ buf

module _ {Double : Type 0} (advance : ℕ → Double → Double) (pulse : Double → ℕ → ℕ → ℕ → ℕ)
    (rand : ℕ → ℕ) where
  length-signals :
      (n selected sig t : ℕ) (phase : Double) (idx : ℕ) (buf : List ℕ)
      → length (signals advance pulse rand n selected sig t phase idx buf).1 ≡ length buf
  unfolding signals
  length-signals zero selected sig t phase idx buf = refl
  length-signals (suc n) selected sig t phase idx buf =
      if-elim (λ (r : ℕ × List ℕ). length r.1 ≡ length buf) (ltb idx (length buf)) _ (idx, buf)
        (length-signals n selected (sig + 1) t phase _ _
          ∙ if-elim (λ b. length b ≡ length buf) (bit selected sig == 1) _ buf
              (length-set buf idx (value advance pulse rand t phase sig idx)) refl)
        refl

  -- The inner loop never goes back, and goes on when one of its signals is chosen.
  signals-advance :
      (n selected sig t : ℕ) (phase : Double) (idx : ℕ) (buf : List ℕ)
      → idx ≤ (signals advance pulse rand n selected sig t phase idx buf).0
  unfolding signals
  signals-advance zero selected sig t phase idx buf = omega arith
  signals-advance (suc n) selected sig t phase idx buf =
      let next =
        signals-advance n selected (sig + 1) t phase
          (if bit selected sig == 1 then idx + 1 else idx)
          (if bit selected sig == 1
            then set buf idx (value advance pulse rand t phase sig idx)
            else buf) in
      ground (arith, next)

  signals-progress :
      (n selected sig t : ℕ) (phase : Double) (idx : ℕ) (buf : List ℕ) (i : ℕ)
      → i < n
      → bit selected (sig + i) ≡ 1
      → idx < length buf
      → idx < (signals advance pulse rand n selected sig t phase idx buf).0
  unfolding signals
  signals-progress zero selected sig t phase idx buf i h c l = absurd (omega arith)
  signals-progress (suc n) selected sig t phase idx buf i h c l =
      elim (Bool-cases (bit selected sig == 1)) [
        | inl e ↦
            let next =
              signals-advance n selected (sig + 1) t phase (idx + 1)
                (set buf idx (value advance pulse rand t phase sig idx)) in
            rw (e, lt→ltb idx (length buf) l) (omega (arith, next))
        | inr e ↦
            rw (e, lt→ltb idx (length buf) l)
              (skip i h c e (λ j. signals-progress n selected (sig + 1) t phase idx buf j))
      ]
    where
      skip :
          (i : ℕ)
          → i < suc n
          → bit selected (sig + i) ≡ 1
          → (bit selected sig == 1) ≡ false
          → ((j : ℕ)
              → j < n
              → bit selected (sig + 1 + j) ≡ 1
              → idx < length buf
              → idx < (signals advance pulse rand n selected (sig + 1) t phase idx buf).0)
          → idx < (signals advance pulse rand n selected (sig + 1) t phase idx buf).0
      skip zero h c e rest = absurd (ground arith)
      skip (suc i) h c e rest =
          rest i (omega arith) (subst (λ k. bit selected k ≡ 1) (omega arith) c) l

  -- With a signal chosen, as many rounds as the buffer has words left are enough to fill it.
  rounds-IsFull :
      (n selected decim t : ℕ) (phase : Double) (idx : ℕ) (buf : List ℕ)
      → 0 < selected
      → selected < 2 ^ 32
      → length buf ≤ idx + n
      → IsFull selected buf (rounds advance pulse rand n selected decim t phase idx buf)
  unfolding rounds
  rounds-IsFull zero selected decim t phase idx buf p u h = record {
    out = phase;
    at = idx;
    filled = buf;
    ends = rw (le→ltb idx (length buf) (omega arith)) (ground arith);
    same = refl;
    reached = λ p'. omega arith;
    idle = λ z. absurd (omega arith);
  }
  rounds-IsFull (suc n) selected decim t phase idx buf p u h =
      elim (Bool-cases (ltb idx (length buf))) [
        | inl e ↦
            let moved = advance decim phase in
            let b = some_bit 32 selected u p in
            let r = signals advance pulse rand 32 selected 0 t moved idx buf in
            let same = length-signals 32 selected 0 t moved idx buf in
            let further =
              signals-progress 32 selected 0 t moved idx buf b.0 b.1
                (subst (λ k. bit selected k ≡ 1) (omega arith) b.2) (ltb→lt idx (length buf) e) in
            let rest =
              rounds-IsFull n selected decim ((t + decim) % 2 ^ 64) moved r.0 r.1 p u
                (omega (arith, same, further)) in
            let on : (not (selected == 0) && true) ≡ true = ground arith in
            record {
              out = rest.out;
              at = rest.at;
              filled = rest.filled;
              ends = rw (e, on) rest.ends;
              same = rest.same ∙ same;
              reached = λ p'. omega (arith, same, rest.reached p');
              idle = λ z. absurd (omega arith);
            }
        | inr e ↦ record {
          out = phase;
          at = idx;
          filled = buf;
          ends = rw e (ground arith);
          same = refl;
          reached = λ p'. ground arith;
          idle = λ z. absurd (omega arith);
        }
      ]

  -- With no signal chosen the buffer stays as it is.
  rounds-none :
      (n decim t : ℕ) (phase : Double) (idx : ℕ) (buf : List ℕ)
      → rounds advance pulse rand n 0 decim t phase idx buf ≡ some (phase, (idx, buf))
  unfolding rounds
  rounds-none zero decim t phase idx buf = refl
  rounds-none (suc n) decim t phase idx buf = refl

  -- Whatever is selected, the loop ends within as many rounds as the buffer has words left.
  pub rounds-ends :
      (n selected decim t : ℕ) (phase : Double) (idx : ℕ) (buf : List ℕ)
      → selected < 2 ^ 32
      → length buf ≤ idx + n
      → IsFull selected buf (rounds advance pulse rand n selected decim t phase idx buf)
  rounds-ends n zero decim t phase idx buf u h = record {
    out = phase;
    at = idx;
    filled = buf;
    ends = rounds-none n decim t phase idx buf;
    same = refl;
    reached = λ p. absurd (omega arith);
    idle = λ z. refl;
  }
  rounds-ends n (suc selected) decim t phase idx buf u h =
      rounds-IsFull n (suc selected) decim t phase idx buf (omega arith) u h
