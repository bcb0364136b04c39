-- ===== src/Sim/Rfs/Acquired.antt =====
-- src/sim/simulator_rfs.cpp: how acquire ends, and what it leaves in the registers.
use feed_core.Prelude.{
  ℕ, ◌%◌, ◌^◌, ◌≡◌, ◌≢◌, ◌<◌, ◌≤◌, ◌⊎◌, refl, sym, ap, ◌∙◌, arith, Bool, true, false, List, [], leb,
  ◌==◌, length, get_or, Bool-cases, inl, inr, subst, Bytes,
}
use feed_core.Prelude.Exn.{Result, ok, err, runtime_error}
use feed_core.Sim.Hires.{Regs, storage, store}
use feed_core.Sim.Hires.Filled.{storage-store, storage-store_ne}
use feed_core.Sim.Rfs.{Shell, Wave, slow_words, describe, acquire}
use feed_core.Sim.Rfs.Pairs.{IsSample, Sampled}
use feed_core.Sim.Rfs.Times.{Ranged, IsFilled, times-IsFilled}
use feed_core.Sim.Rfs.Range.{IsRange, IsBefore}
use feed_core.Sim.Rfs.Slow.{IsHeader, slow_words-IsHeader, length-slow_words}

-- The mask and the tag that acquire reads.
abbrev pub chan_keep : Shell → Regs → ℕ
chan_keep sh regs = get_or (storage sh.dsp_chan_keep regs) 0 0 % 2 ^ 12

abbrev pub tag_of : Shell → Regs → ℕ
tag_of sh regs = get_or (storage sh.dsp_tag regs) 0 0 % 2 ^ 16

module _ {Double : Type 0} (i_word q_word : Double → Double → ℕ) (turn : Double → Double)
    (advance : ℕ → Double → Double) (adc : Double → ℕ) (start : Double) (sh : Shell)
    (circle_count : ℕ) (regs : Regs) where
  -- `advance` for the data of the waveform.
  abbrev pub onward : Double → Double
  onward = advance (length (storage sh.circle_data regs))

  -- The registers of a waveform that was acquired: every word of its data is a sample of a kept
  -- channel at one of the times of the loop, the slow data has its header with the range of adc over
  -- these times, 0 to 0 if the data is empty, and no other register changed.
  pub record IsAcquired (written : Regs) : Type 0 where
    pub rounds : ℕ
    pub min : ℕ
    pub max : ℕ
    pub range :
        ((length (storage sh.circle_data regs) ≡ 0) × (min ≡ 0) × (max ≡ 0))
        ⊎ IsRange onward start adc rounds min max
    pub sized : length (storage sh.circle_data written) ≡ length (storage sh.circle_data regs)
    pub samples :
        (k : ℕ)
        → k < length (storage sh.circle_data written)
        → IsSample i_word q_word turn
            (chan_keep sh regs)
            (IsBefore onward start adc rounds)
            (get_or (storage sh.circle_data written) k 0)
    pub header : IsHeader circle_count (tag_of sh regs) min max (storage sh.slow_data written)
    pub slow_sized : length (storage sh.slow_data written) ≡ length (storage sh.slow_data regs)
    pub others :
        (name : Bytes)
        → sh.circle_data ≢ name
        → sh.slow_data ≢ name
        → storage name written ≡ storage name regs

  -- How acquire ends: at once when no channel is kept, with an exception exactly when the slow data is
  -- too small, or with the waveform acquired.
  pub data Outcome : Result Regs → Type 0 where
    idle : chan_keep sh regs ≡ 0 → Outcome (ok regs)
    too_small :
        0 < chan_keep sh regs
        → length (storage sh.slow_data regs) ≤ 42
        → Outcome (err (runtime_error "shell_X_slow_data register size too small" []))
    acquired :
        (written : Regs)
        → 0 < chan_keep sh regs
        → 42 < length (storage sh.slow_data regs)
        → IsAcquired written
        → Outcome (ok written)

  described :
      (w : Wave) (rounds : ℕ)
      → sh.circle_data ≢ sh.slow_data
      → 0 < chan_keep sh regs
      → length w.arr ≤ w.at
      → Sampled i_word q_word turn
          (chan_keep sh regs)
          (IsBefore onward start adc rounds)
          (length (storage sh.circle_data regs))
          (w.at, w.arr)
      → ((length (storage sh.circle_data regs) ≡ 0) × (w.min ≡ 0) × (w.max ≡ 0))
        ⊎ IsRange onward start adc rounds w.min w.max
      → Outcome (describe sh circle_count (tag_of sh regs) regs w)
  unfolding describe
  described w rounds apart p full sampled ranged =
      elim (Bool-cases (leb (length (storage sh.slow_data stored)) 42)) [
        | inl e ↦ rw e (Outcome.too_small p (omega (arith, ap length slow_before, leb→le e)))
        | inr e ↦
            rw e (Outcome.acquired _ p (omega (arith, ap length slow_before, gt e)) (after (gt e)))
      ]
    where
      stored : Regs
      stored = store sh.circle_data w.arr regs

      slow_before : storage sh.slow_data stored ≡ storage sh.slow_data regs
      slow_before = storage-store_ne sh.circle_data sh.slow_data w.arr regs apart

      leb→le :
          leb (length (storage sh.slow_data stored)) 42 ≡ true
          → length (storage sh.slow_data stored) ≤ 42
      leb→le e = ground arith

      gt :
          leb (length (storage sh.slow_data stored)) 42 ≡ false
          → 42 < length (storage sh.slow_data stored)
      gt e = ground arith

      header : List ℕ
      header =
          slow_words (length (storage sh.slow_data stored)) circle_count (tag_of sh regs) w.min
            w.max

      header_sized : length header ≡ length (storage sh.slow_data stored)
      header_sized =
          length-slow_words (length (storage sh.slow_data stored)) circle_count (tag_of sh regs)
            w.min w.max

      written : Regs
      written = store sh.slow_data header stored

      slow_after : storage sh.slow_data written ≡ header
      slow_after = storage-store sh.slow_data header stored header_sized

      data_after : storage sh.circle_data written ≡ w.arr
      data_after =
          storage-store_ne sh.slow_data sh.circle_data header stored (λ e. apart (sym e))
          ∙ storage-store sh.circle_data w.arr regs sampled.0

      after : 42 < length (storage sh.slow_data stored) → IsAcquired written
      after l = record {
        rounds = rounds;
        min = w.min;
        max = w.max;
        range = ranged;
        sized = ap length data_after ∙ sampled.0;
        samples = λ k u.
            let within : k < length w.arr = omega (arith, ap length data_after, u) in
            subst
              (λ b.
                IsSample i_word q_word turn (chan_keep sh regs) (IsBefore onward start adc rounds)
                  (get_or b k 0))
              (sym data_after) (sampled.1 k (omega (arith, within, full)) within);
        header =
            subst (IsHeader circle_count (tag_of sh regs) w.min w.max) (sym slow_after)
              (slow_words-IsHeader _ circle_count (tag_of sh regs) w.min w.max l);
        slow_sized = ap length slow_after ∙ (header_sized ∙ ap length slow_before);
        others = λ name nc ns.
            storage-store_ne sh.slow_data name header stored ns
            ∙ storage-store_ne sh.circle_data name w.arr regs nc;
      }

module _ {Double : Type 0} (i_word q_word : Double → Double → ℕ) (turn : Double → Double)
    (advance : ℕ → Double → Double) (is_start : Double → Bool) (adc : Double → ℕ) (start : Double)
    (sh : Shell) (circle_count : ℕ) (phase : Double) (regs : Regs) where
  -- A call of acquire ends in one of three ways, when the data and the slow data are two registers. If
  -- no channel is kept, it does nothing. If the slow data has at most 42 words, it throws. Otherwise each
  -- word of the data is then the value of a kept channel, I or Q as the bit is odd or even, at one of the
  -- times of the loop. The slow data has, high byte first, the counter in the words 17 and 18 and three
  -- times, from 21, 25 and 29 on, the least and the greatest value that adc, as an epicsInt32, has at
  -- those times (0 and 0, if the data is empty), the tag in 33 and 34, and 0 in the other words. Both
  -- registers have their length, and every other register has its words. Of the floating point
  -- operations it is assumed that the test for the time 0 holds at the start and at no later time, and
  -- that adc is a 32-bit word.
  pub acquire-Outcome :
      is_start start ≡ true
      → ((t : Double) → is_start (advance (length (storage sh.circle_data regs)) t) ≡ false)
      → ((t : Double) → adc t < 2 ^ 32)
      → sh.circle_data ≢ sh.slow_data
      → Outcome i_word q_word turn advance adc start sh circle_count regs
          (acquire i_word q_word turn advance is_start adc start sh circle_count phase regs)
  unfolding acquire Ranged
  acquire-Outcome starts goes_on word apart = elim (Bool-cases (chan_keep sh regs == 0)) [
    | inl e ↦ rw e (Outcome.idle (ground arith))
    | inr e ↦
        let arr = storage sh.circle_data regs in
        let p : 0 < chan_keep sh regs = ground arith in
        let w : Wave = record { at = 0; arr = arr; min = 0; max = 0 } in
        let f =
          times-IsFilled i_word q_word turn advance is_start adc start (chan_keep sh regs)
            (length arr) starts goes_on word (omega arith) p (length arr) 0 phase w (omega arith)
            (refl, λ k l. absurd (omega arith)) (inl (refl, refl, refl, refl)) in
        rw (e, f.ends)
          (described i_word q_word turn advance adc start sh circle_count regs f.done f.rounds apart
            p f.full f.sampled (range_of f))
  ]
    where
      range_of :
          {r : Result Wave}
          → (f : IsFilled i_word q_word turn advance is_start adc start
              (chan_keep sh regs)
              (length (storage sh.circle_data regs))
              r)
          → ((length (storage sh.circle_data regs) ≡ 0) × (f.done.min ≡ 0) × (f.done.max ≡ 0))
            ⊎ IsRange
                (advance (length (storage sh.circle_data regs)))
                start
                adc
                f.rounds
                f.done.min
                f.done.max
      range_of f = elim f.ranged [
        | inl none ↦ inl (omega (arith, f.full, f.sampled.0, none.1), none.2, none.3)
        | inr r ↦ inr r
      ]
