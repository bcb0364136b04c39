-- ===== src/Sim/Hires/Tests.antt =====
-- The waveform trace_odata of a small board, with the second and fourth signals selected.
use feed_core.Prelude.{
  ℕ, ◌≡◌, ◌+◌, refl, arith, true, List, [], ◌∷◌, Option, none, some, Bytes, codes, ◌===◌,
}
use feed_core.Prelude.Bits.{bit, land, lor}
use feed_core.Prelude.Maps.{lookup, insert, bytes_key, bytes_lt}
use feed_core.Sim.{SimReg}
use feed_core.Sim.Hires.{
  Wf, Regs, words_of, storage, put_words, store, first_word, value, signals, rounds, clear_reset,
  set_status, fill, finish, process,
}
use feed_core.Sim.Hires.Board.{trace_odata}
use feed_core.Sim.Hires.Filled.{===-apart, IsApart, IsCaptured, process-IsCaptured}

abbrev register : Bytes → List ℕ → SimReg
register name words = record {
  name = name;
  base = 0;
  mask = 0xffffffff;
  readable = true;
  writable = true;
  storage = words;
}

abbrev small : Regs
small =
    (codes "keep", register (codes "keep") (10 ∷ []))
    ∷ (codes "trace_flip", register (codes "trace_flip") (5 ∷ []))
    ∷ (codes "trace_odata", register (codes "trace_odata") (7 ∷ 7 ∷ 7 ∷ 7 ∷ 7 ∷ []))
    ∷ (codes "trace_status1", register (codes "trace_status1") (2 ∷ []))
    ∷ (codes "wave_samp_per", register (codes "wave_samp_per") (150 ∷ []))
    ∷ []

abbrev wave : Wf ℕ
wave = trace_odata 0

-- A pulse that is the phase, the pair and the noise added up.
abbrev sum : ℕ → ℕ → ℕ → ℕ → ℕ
sum phase pair q noise = phase + pair + q + noise

abbrev swept : ℕ → ℕ → ℕ
swept decim phase = phase + decim

abbrev words_after : Option (Wf ℕ × Regs) → Bytes → List ℕ
words_after none name = []
words_after (some r) name = storage name r.1

small_run :
    (words_after (process swept sum (λ i. i) wave small) (codes "trace_flip") ≡ 4 ∷ [])
    × ((words_after (process swept sum (λ i. i) wave small) (codes "trace_status1")
          ≡ 1073741826 ∷ [])
        × (words_after (process swept sum (λ i. i) wave small) (codes "trace_odata")
            ≡ 0 ∷ 0 ∷ 303 ∷ 305 ∷ 455 ∷ []))
unfolding process fill finish clear_reset set_status store put_words storage words_of first_word
    rounds signals value bit land lor lookup insert trace_odata ◌===◌ bytes_lt
small_run = (refl, (refl, refl))

three : IsApart wave
unfolding trace_odata ◌===◌
three = record {
  status_reset = ===-apart wave.status wave.reset refl;
  status_buffer = ===-apart wave.status wave.buffer refl;
  buffer_reset = ===-apart wave.buffer wave.reset refl;
}

process-IsCaptured_example :
    IsCaptured swept sum (λ i. i) wave small (process swept sum (λ i. i) wave small)
unfolding clear_reset store put_words storage words_of first_word bit land lookup insert trace_odata
    ◌===◌ bytes_lt
process-IsCaptured_example =
    process-IsCaptured swept sum (λ i. i) wave small three (omega arith) (omega arith) (omega arith)
      (omega arith) refl (omega arith)
