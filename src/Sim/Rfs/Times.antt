-- ===== src/Sim/Rfs/Times.antt =====
-- src/sim/simulator_rfs.cpp: the loop of acquire over the times.
use feed_core.Prelude.{
  ℕ, zero, suc, ◌+◌, ◌^◌, ◌≡◌, ◌<◌, ◌≤◌, ◌⊎◌, refl, sym, ap, ◌∙◌, arith, Bool, true, false, List,
  ltb, length, Bool-cases, inl, inr, ltb→lt, le→ltb,
}
use feed_core.Prelude.Bits.{some_bit}
use feed_core.Prelude.Exn.{Result, ok}
use feed_core.Sim.Rfs.{Wave, pairs, times, track_min, track_max}
use feed_core.Sim.Rfs.Pairs.{Sampled, Sampled-map, pairs-Sampled, pairs-progress}
use feed_core.Sim.Rfs.Range.{IsRange, IsBefore, time_at, track-IsRange}

module _ {Double : Type 0} (i_word q_word : Double → Double → ℕ) (turn : Double → Double)
    (advance : ℕ → Double → Double) (is_start : Double → Bool) (adc : Double → ℕ) (start : Double)
    (mask len : ℕ) where
  -- The range after some rounds: 0 to 0 before the first one, which finds the index 0.
  unfoldable pub Ranged : ℕ → Wave → Type 0
  Ranged rounds w =
      ((rounds ≡ 0) × (w.at ≡ 0) × (w.min ≡ 0) × (w.max ≡ 0))
      ⊎ IsRange (advance len) start adc rounds w.min w.max

  -- A loop over the times that has ended, with every word a sample of one of its times.
  pub record IsFilled (r : Result Wave) : Type 0 where
    pub done : Wave
    pub rounds : ℕ
    pub ends : r ≡ ok done
    pub full : length done.arr ≤ done.at
    pub sampled :
        Sampled i_word q_word turn mask
          (IsBefore (advance len) start adc rounds)
          len
          (done.at, done.arr)
    pub ranged : Ranged rounds done

  module _ (starts : is_start start ≡ true)
      (goes_on : (t : Double) → is_start (advance len t) ≡ false)
      (word : (t : Double) → adc t < 2 ^ 32) (u : mask < 2 ^ 12) (p : 0 < mask) where
    round-Ranged :
        (k : ℕ) (w : Wave) (at : ℕ) (arr : List ℕ)
        → Ranged k w
        → let t = time_at (advance len) start adc k in
          Ranged (suc k) (record {
            at = at;
            arr = arr;
            min = track_min (is_start t) (adc t) w.min;
            max = track_max (is_start t) (adc t) w.max;
          })
    unfolding Ranged
    round-Ranged k w at arr (inl none) = inr (
        track-IsRange (advance len) start adc is_start starts goes_on word k w.min w.max
          (λ positive. absurd (omega (arith, positive, none.0))))
    round-Ranged k w at arr (inr r) = inr (
        track-IsRange (advance len) start adc is_start starts goes_on word k w.min w.max
          (λ positive. r))

    pub times-IsFilled :
        (n k : ℕ) (phase : Double) (w : Wave)
        → length w.arr ≤ w.at + n
        → Sampled i_word q_word turn mask (IsBefore (advance len) start adc k) len (w.at, w.arr)
        → Ranged k w
        → IsFilled (
            times i_word q_word turn advance is_start adc n mask phase
              (time_at (advance len) start adc k)
              w)
    unfolding times
    times-IsFilled zero k phase w h s g = record {
      done = w;
      rounds = k;
      ends = rw (le→ltb w.at (length w.arr) (omega arith)) refl;
      full = omega arith;
      sampled = s;
      ranged = g;
    }
    times-IsFilled (suc n) k phase w h s g = elim (Bool-cases (ltb w.at (length w.arr))) [
      | inr e ↦ record {
        done = w;
        rounds = k;
        ends = rw e refl;
        full = ground arith;
        sampled = s;
        ranged = g;
      }
      | inl e ↦
          let t = time_at (advance len) start adc k in
          let a = pairs i_word q_word turn 6 mask t phase (w.at, w.arr) in
          let b = some_bit 12 mask u p in
          let up =
            pairs-progress i_word q_word turn mask 6 t phase (w.at, w.arr) b.0 (omega (arith, b.1))
              b.2 (ltb→lt w.at (length w.arr) e) in
          let before = IsBefore (advance len) start adc k in
          let now = IsBefore (advance len) start adc (suc k) in
          let filled =
            pairs-Sampled i_word q_word turn mask now len 6 t phase (w.at, w.arr)
              (k, omega arith, refl) (omega arith)
              (Sampled-map i_word q_word turn mask before now len (w.at, w.arr)
                (λ t' at. (at.0, omega (arith, at.1), at.2)) s) in
          let same : length a.1 ≡ length w.arr = filled.0 ∙ sym s.0 in
          let next : Wave = record {
            at = a.0;
            arr = a.1;
            min = track_min (is_start t) (adc t) w.min;
            max = track_max (is_start t) (adc t) w.max;
          } in
          let rest =
            times-IsFilled n (suc k) phase next (omega (arith, same, up)) filled
              (round-Ranged k w a.0 a.1 g) in
          record {
            done = rest.done;
            rounds = rest.rounds;
            ends = rw e (
                ap
                  (λ l.
                    times i_word q_word turn advance is_start adc n mask phase (advance l t) next)
                  s.0
                ∙ rest.ends);
            full = rest.full;
            sampled = rest.sampled;
            ranged = rest.ranged;
          }
    ]
