-- ===== src/Sim/Rfs/Range.antt =====
-- src/sim/simulator_rfs.cpp: the range of adc that acquire keeps while it goes through the times.
use feed_core.Prelude.{
  ℕ, zero, suc, ◌^◌, ◌≡◌, ◌<◌, ◌⊎◌, refl, sym, subst, arith, Bool, true, false, ◌==◌, Bool-cases,
  inl, inr, ◌∙◌,
}
use feed_core.Prelude.Int.{ℤ, signed32, ◌≤ℤ◌}
use feed_core.Sim.Rfs.{signed_lt, track_min, track_max}

signed_lt-true :
    (a b : ℕ) → a < 2 ^ 32 → b < 2 ^ 32 → signed_lt a b ≡ true → signed32 a ≤ℤ signed32 b
unfolding signed_lt
signed_lt-true a b h k e = ground arith

signed_lt-false :
    (a b : ℕ) → a < 2 ^ 32 → b < 2 ^ 32 → signed_lt a b ≡ false → signed32 b ≤ℤ signed32 a
unfolding signed_lt
signed_lt-false a b h k e = ground arith

≤ℤ-refl : (a : ℤ) → a ≤ℤ a
≤ℤ-refl a = omega arith

≤ℤ-trans : (a b c : ℤ) → a ≤ℤ b → b ≤ℤ c → a ≤ℤ c
≤ℤ-trans a b c h k = omega arith

-- A new value against the least and the greatest so far: the result is one of the two, and on its side
-- of both.
track_min-Least :
    (a m : ℕ)
    → a < 2 ^ 32
    → m < 2 ^ 32
    → (signed32 (track_min false a m) ≤ℤ signed32 a)
      × (signed32 (track_min false a m) ≤ℤ signed32 m)
      × ((track_min false a m ≡ a) ⊎ (track_min false a m ≡ m))
unfolding track_min
track_min-Least a m h k = elim (Bool-cases (signed_lt a m)) [
  | inl e ↦ rw e (≤ℤ-refl (signed32 a), signed_lt-true a m h k e, inl refl)
  | inr e ↦ rw e (signed_lt-false a m h k e, ≤ℤ-refl (signed32 m), inr refl)
]

track_max-Greatest :
    (a m : ℕ)
    → a < 2 ^ 32
    → m < 2 ^ 32
    → (signed32 a ≤ℤ signed32 (track_max false a m))
      × (signed32 m ≤ℤ signed32 (track_max false a m))
      × ((track_max false a m ≡ a) ⊎ (track_max false a m ≡ m))
unfolding track_max
track_max-Greatest a m h k = elim (Bool-cases (signed_lt m a)) [
  | inl e ↦ rw e (≤ℤ-refl (signed32 a), signed_lt-true m a k h e, inl refl)
  | inr e ↦ rw e (signed_lt-false m a k h e, ≤ℤ-refl (signed32 m), inr refl)
]

track_min-first : (a m : ℕ) → track_min true a m ≡ a
unfolding track_min
track_min-first a m = ground arith

track_max-first : (a m : ℕ) → track_max true a m ≡ a
unfolding track_max
track_max-first a m = ground arith

module _ {Double : Type 0} (next : Double → Double) (start : Double) (adc : Double → ℕ) where
  -- The j-th time.
  abbrev pub time_at : ℕ → Double
  time_at zero = start
  time_at (suc j) = next (time_at j)

  -- A time of the first rounds.
  abbrev pub IsBefore : ℕ → Double → Type 0
  IsBefore rounds t = (j : ℕ) × (j < rounds) × (t ≡ time_at j)

  -- The least and the greatest value of adc, as epicsInt32, over the times of the first rounds.
  pub record IsRange (rounds min max : ℕ) : Type 0 where
    pub least : (j : ℕ) → j < rounds → signed32 min ≤ℤ signed32 (adc (time_at j))
    pub least_met : (j : ℕ) × (j < rounds) × (min ≡ adc (time_at j))
    pub greatest : (j : ℕ) → j < rounds → signed32 (adc (time_at j)) ≤ℤ signed32 max
    pub greatest_met : (j : ℕ) × (j < rounds) × (max ≡ adc (time_at j))

  module _ (is_start : Double → Bool) (starts : is_start start ≡ true)
      (goes_on : (t : Double) → is_start (next t) ≡ false)
      (word : (t : Double) → adc t < 2 ^ 32) where
    first_round :
        (min max : ℕ)
        → IsRange 1
            (track_min (is_start start) (adc start) min)
            (track_max (is_start start) (adc start) max)
    first_round min max =
        rw (starts, track_min-first (adc start) min, track_max-first (adc start) max)
          (record {
            least = λ j h.
                let only : 0 ≡ j = omega arith in
                subst (λ k. signed32 (adc start) ≤ℤ signed32 (adc (time_at k))) only
                  (≤ℤ-refl (signed32 (adc start)));
            least_met = (zero, omega arith, refl);
            greatest = λ j h.
                let only : 0 ≡ j = omega arith in
                subst (λ k. signed32 (adc (time_at k)) ≤ℤ signed32 (adc start)) only
                  (≤ℤ-refl (signed32 (adc start)));
            greatest_met = (zero, omega arith, refl);
          })

    met_later :
        (k a m new : ℕ)
        → a ≡ adc (time_at k)
        → (j : ℕ) × (j < k) × (m ≡ adc (time_at j))
        → (new ≡ a) ⊎ (new ≡ m)
        → (j : ℕ) × (j < suc k) × (new ≡ adc (time_at j))
    met_later k a m new here old (inl e) = (k, omega arith, e ∙ here)
    met_later k a m new here old (inr e) = (old.0, omega (arith, old.1), e ∙ old.2)

    below_all :
        (k new m : ℕ)
        → signed32 new ≤ℤ signed32 (adc (time_at k))
        → signed32 new ≤ℤ signed32 m
        → ((j : ℕ) → j < k → signed32 m ≤ℤ signed32 (adc (time_at j)))
        → (j : ℕ) → j < suc k
        → signed32 new ≤ℤ signed32 (adc (time_at j))
    below_all k new m a b all j h = elim (Bool-cases (j == k)) [
      | inl e ↦
          let same : k ≡ j = ground arith in
          subst (λ i. signed32 new ≤ℤ signed32 (adc (time_at i))) same a
      | inr e ↦
          ≤ℤ-trans (signed32 new) (signed32 m) (signed32 (adc (time_at j))) b (all j (ground arith))
    ]

    above_all :
        (k new m : ℕ)
        → signed32 (adc (time_at k)) ≤ℤ signed32 new
        → signed32 m ≤ℤ signed32 new
        → ((j : ℕ) → j < k → signed32 (adc (time_at j)) ≤ℤ signed32 m)
        → (j : ℕ) → j < suc k
        → signed32 (adc (time_at j)) ≤ℤ signed32 new
    above_all k new m a b all j h = elim (Bool-cases (j == k)) [
      | inl e ↦
          let same : k ≡ j = ground arith in
          subst (λ i. signed32 (adc (time_at i)) ≤ℤ signed32 new) same a
      | inr e ↦
          ≤ℤ-trans (signed32 (adc (time_at j))) (signed32 m) (signed32 new) (all j (ground arith)) b
    ]

    -- A round more.
    pub track-IsRange :
        (k min max : ℕ)
        → (0 < k → IsRange k min max)
        → let t = time_at k in
          IsRange (suc k) (track_min (is_start t) (adc t) min) (track_max (is_start t) (adc t) max)
    track-IsRange zero min max h = first_round min max
    track-IsRange (suc k) min max h =
        let r = h (omega arith) in
        let a = adc (time_at (suc k)) in
        let wa : a < 2 ^ 32 = word (time_at (suc k)) in
        let wl = subst (λ x. x < 2 ^ 32) (sym r.least_met.2) (word (time_at r.least_met.0)) in
        let wg = subst (λ x. x < 2 ^ 32) (sym r.greatest_met.2) (word (time_at r.greatest_met.0)) in
        let l = track_min-Least a min wa wl in
        let g = track_max-Greatest a max wa wg in
        rw (goes_on (time_at k)) (record {
          least = below_all (suc k) (track_min false a min) min l.0 l.1 r.least;
          least_met = met_later (suc k) a min (track_min false a min) refl r.least_met l.2;
          greatest = above_all (suc k) (track_max false a max) max g.0 g.1 r.greatest;
          greatest_met = met_later (suc k) a max (track_max false a max) refl r.greatest_met g.2;
        })
