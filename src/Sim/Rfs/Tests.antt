-- ===== src/Sim/Rfs/Tests.antt =====
-- A board whose second waveform keeps three channels, and one with slow data that is too small.
use feed_core.Prelude.{
  arith, ◌<◌, ◌^◌, ◌-◌, ◌%◌, if◌then◌else◌, ℕ, ◌+◌, ◌*◌, ◌≡◌, refl, true, List, [], ◌∷◌, ◌++◌, ◌==◌,
  ◌===◌, Bytes, codes, get_or, replicate,
}
use feed_core.Prelude.Bits.{bit, land, lor}
use feed_core.Prelude.Exn.{Result, ok, err, runtime_error}
use feed_core.Prelude.Maps.{lookup, insert, bytes_key, bytes_lt}
use feed_core.Sim.{SimReg, reg_write}
use feed_core.Sim.Hires.{Regs, words_of, storage, put_words, store}
use feed_core.Sim.Hires.Board.{write_named}
use feed_core.Sim.Hires.Filled.{===-apart}
use feed_core.Sim.Rfs.{
  Rfs, shell, signed_lt, track_min, track_max, high_byte, low_byte, set_all, slow_words, keep_word,
  pairs, times, describe, acquire, acquire_if, change_ready, arm, write_base, rfs_write,
}
use feed_core.Sim.Rfs.Acquired.{Outcome, acquire-Outcome}

abbrev reg_of : Bytes → List ℕ → Bytes × SimReg
reg_of name words = (
  name,
  record {
    name = name;
    base = 0;
    mask = 0xffffffff;
    readable = true;
    writable = true;
    storage = words;
  },
)

-- The registers, with slow data of this many words, and 0x801 as the channels of the second waveform.
abbrev board_regs : ℕ → Regs
board_regs n =
    reg_of (codes "circle_buf_flip") (0 ∷ [])
    ∷ reg_of (codes "llrf_circle_ready") (3 ∷ [])
    ∷ reg_of (codes "shell_1_circle_data") (9 ∷ 9 ∷ 9 ∷ [])
    ∷ reg_of (codes "shell_1_dsp_chan_keep") (0x1801 ∷ [])
    ∷ reg_of (codes "shell_1_dsp_tag") (0x12345 ∷ [])
    ∷ reg_of (codes "shell_1_slow_data") (replicate n 1)
    ∷ []

abbrev board : ℕ → Rfs ℕ
board n = record {
  phase = 100;
  circle_count = 0;
  simulator = record { running = true; reg_by_name = board_regs n; reg_by_addr = [] };
}

-- Times and phases are numbers here: a round is a step of 1, and I and Q differ by 1000.
abbrev value_i : ℕ → ℕ → ℕ
value_i t pha = 10000 * t + pha

abbrev value_q : ℕ → ℕ → ℕ
value_q t pha = 10000 * t + pha + 1000

-- Negative at the time 0, and then 301, 302 and so on.
abbrev value_adc : ℕ → ℕ
value_adc t = if t == 0 then 2 ^ 32 - 300 else (300 + t) % 2 ^ 32

value_adc-bound : (t : ℕ) → value_adc t < 2 ^ 32
value_adc-bound t = ground arith

abbrev acquired : ℕ → Result Regs
acquired n =
    acquire value_i value_q (λ p. p + 10) (λ n' t. t + 1) (λ t. t == 0) value_adc 0 (shell 1) 0 100
      (board_regs n)

abbrev words_after : Result Regs → Bytes → List ℕ
words_after (err e) name = []
words_after (ok regs) name = storage name regs

-- The two kept channels, I of the first pair and Q of the last, take turns.
acquire_run : words_after (acquired 43) (codes "shell_1_circle_data") ≡ 100 ∷ 1150 ∷ 10100 ∷ []
unfolding acquire describe times pairs keep_word slow_words set_all high_byte low_byte track_min
    track_max signed_lt storage store put_words words_of lookup insert bit shell ◌===◌ bytes_lt
    replicate
acquire_run = refl

header_run :
    (get_or (words_after (acquired 43) (codes "shell_1_slow_data")) 34 0 ≡ 0x2345)
    × (get_or (words_after (acquired 43) (codes "shell_1_slow_data")) 24 0 ≡ 45)
    × (get_or (words_after (acquired 43) (codes "shell_1_slow_data")) 22 0 ≡ 0xd4)
unfolding acquire describe times pairs keep_word slow_words set_all high_byte low_byte track_min
    track_max signed_lt storage store put_words words_of lookup insert bit shell ◌===◌ bytes_lt
    replicate
header_run = (refl, refl, refl)

small_run : acquired 42 ≡ err (runtime_error "shell_X_slow_data register size too small" [])
unfolding acquire describe times pairs keep_word slow_words set_all high_byte low_byte track_min
    track_max signed_lt storage store put_words words_of lookup insert bit shell ◌===◌ bytes_lt
    replicate
small_run = refl

abbrev armed : Result (Rfs ℕ) → List ℕ
armed (err e) = []
armed (ok b) =
    b.phase
    ∷ (storage (codes "llrf_circle_ready") b.simulator.reg_by_name
        ++ storage (codes "circle_buf_flip") b.simulator.reg_by_name)

-- Only the two channel bits of the written word are kept.
write_run :
    armed (
      rfs_write value_i value_q
        (λ p. p + 10)
        (λ n' t. t + 1)
        (λ t. t == 0)
        value_adc
        0
        (λ p. p + 5)
        (codes "circle_buf_flip")
        0
        6
        (board 43))
    ≡ 105 ∷ 3 ∷ 2 ∷ []
unfolding rfs_write arm acquire_if change_ready write_base write_named reg_write land lor acquire
    describe times pairs keep_word slow_words set_all high_byte low_byte track_min track_max
    signed_lt storage store put_words words_of lookup insert bit shell ◌===◌ bytes_lt replicate
write_run = refl

acquire-Outcome_example :
    Outcome value_i value_q
      (λ p. p + 10)
      (λ n' t. t + 1)
      value_adc
      0
      (shell 1)
      0
      (board_regs 43)
      (acquired 43)
unfolding shell ◌===◌
acquire-Outcome_example =
    acquire-Outcome value_i value_q (λ p. p + 10) (λ n' t. t + 1) (λ t. t == 0) value_adc 0
      (shell 1) 0 100 (board_regs 43) refl (λ t. ground arith) value_adc-bound
      (===-apart (shell 1).circle_data (shell 1).slow_data refl)
