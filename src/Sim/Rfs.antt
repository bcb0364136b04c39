-- ===== src/Sim/Rfs.antt =====
-- src/sim/simulator_rfs.cpp: the simulated RFS board, which acquires two waveforms when its flip register
-- is written. A pointer to a register is the register's name. The floating point arithmetic, sin and cos
-- are parameters; an epicsInt32 is its 32-bit word. What a write that throws has changed before is not
-- kept.
pub mod Pairs
pub mod Range
pub mod Slow
pub mod Times
pub mod Acquired
mod Tests
use feed_core.Prelude.{
  ℕ, zero, suc, ◌+◌, ◌-◌, ◌*◌, ◌/◌, ◌%◌, ◌^◌, Bool, true, false, ◌&&◌, ◌||◌, not, List, [], ◌∷◌,
  ◌++◌, Option, none, some, ltb, leb, ◌==◌, ◌===◌, if◌then◌else◌, Bytes, codes, length, set, get_or,
  replicate,
}
use feed_core.Prelude.Bits.{land, lor, bit}
use feed_core.Prelude.Exn.{Result, ok, err, runtime_error, fuel_out, ◌>>=◌}
use feed_core.Prelude.Maps.{lookup, insert, bytes_key}
use feed_core.Sim.{Simulator, SimReg, reg_write}
use feed_core.Sim.Hires.{Regs, storage, store}
use feed_core.Sim.Hires.Board.{all_found, write_named}

-- The registers of one of the two waveforms: shell_X_dsp_chan_keep, shell_X_dsp_tag,
-- shell_X_circle_data and shell_X_slow_data.
pub record Shell : Type 0 where
  pub dsp_chan_keep : Bytes
  pub dsp_tag : Bytes
  pub circle_data : Bytes
  pub slow_data : Bytes

-- The name "shell_", a digit, and the rest.
abbrev pub shell_name : ℕ → Bytes → Bytes
shell_name i rest = codes "shell_" ++ (48 + i) ∷ rest

unfoldable pub shell : ℕ → Shell
shell i = record {
  dsp_chan_keep = shell_name i (codes "_dsp_chan_keep");
  dsp_tag = shell_name i (codes "_dsp_tag");
  circle_data = shell_name i (codes "_circle_data");
  slow_data = shell_name i (codes "_slow_data");
}

-- Simulator_RFS
pub record Rfs (Double : Type 0) : Type 0 where
  pub phase : Double
  pub circle_count : ℕ
  pub simulator : Simulator

abbrev pub shell_names : Shell → List Bytes
shell_names sh = sh.dsp_chan_keep ∷ sh.dsp_tag ∷ sh.circle_data ∷ sh.slow_data ∷ []

-- Simulator_RFS::Simulator_RFS, on the Simulator that it is built on.
unfoldable pub new_rfs : {Double : Type 0} → Double → Simulator → Result (Rfs Double)
new_rfs start s =
    all_found
      (codes "circle_buf_flip"
        ∷ codes "llrf_circle_ready"
        ∷ (shell_names (shell 0) ++ shell_names (shell 1)))
      s
    >>= (λ found. ok (record { phase = start; circle_count = 0; simulator = found }))

-- `a < b` on epicsInt32.
unfoldable pub signed_lt : ℕ → ℕ → Bool
signed_lt a b = ltb ((a + 2 ^ 31) % 2 ^ 32) ((b + 2 ^ 31) % 2 ^ 32)

-- The least and the greatest of the values so far.
unfoldable pub track_min : Bool → ℕ → ℕ → ℕ
track_min first adc m = if signed_lt adc m || first then adc else m

unfoldable pub track_max : Bool → ℕ → ℕ → ℕ
track_max first adc m = if signed_lt m adc || first then adc else m

-- The header of a waveform in its slow data: from slow[17] to slow[34].
unfoldable pub high_byte : ℕ → ℕ
high_byte w = w / 256 % 256

unfoldable pub low_byte : ℕ → ℕ
low_byte w = w % 256

abbrev pub four_words : ℕ → ℕ → List ℕ
four_words min max = high_byte min ∷ low_byte min ∷ high_byte max ∷ low_byte max ∷ []

unfoldable pub set_all : ℕ → List ℕ → List ℕ → List ℕ
set_all i [] slow = slow
set_all i (w ∷ ws) slow = set_all (i + 1) ws (set slow i w)

-- The end of acquire, from std::fill on, for slow data of this length.
unfoldable pub slow_words : ℕ → ℕ → ℕ → ℕ → ℕ → List ℕ
slow_words len circle_count tag min max =
    let counted =
      set_all 17 (high_byte circle_count ∷ low_byte circle_count ∷ []) (replicate len 0) in
    let ranged =
      set_all 21 (four_words min max ++ (four_words min max ++ four_words min max)) counted in
    set (set ranged 34 tag) 33 tag

-- What the loop over a waveform leaves: the index, the waveform, and the range of adc.
pub record Wave : Type 0 where
  pub at : ℕ
  pub arr : List ℕ
  pub min : ℕ
  pub max : ℕ

-- One of the two tests in a round: the channel is the one of this bit.
unfoldable pub keep_word : ℕ → ℕ → ℕ → ℕ × List ℕ → ℕ × List ℕ
keep_word mask b word (i, arr) =
    if (bit mask b == 1) && ltb i (length arr) then (i + 1, set arr i word) else (i, arr)

-- After the loop: the size of the slow data is checked when the waveform is already stored.
unfoldable pub describe : Shell → ℕ → ℕ → Regs → Wave → Result Regs
describe sh circle_count tag regs w =
    let stored = store sh.circle_data w.arr regs in
    let slow = storage sh.slow_data stored in
    if leb (length slow) 42
    then err (runtime_error "shell_X_slow_data register size too small" [])
    else ok (store sh.slow_data (slow_words (length slow) circle_count tag w.min w.max) stored)

-- `llrf_circle_ready.storage[0]` after a change.
unfoldable pub change_ready : (ℕ → ℕ) → Regs → Regs
change_ready f regs =
    let words = storage (codes "llrf_circle_ready") regs in
    store (codes "llrf_circle_ready") (set words 0 (f (get_or words 0 0))) regs

unfoldable pub write_base : {Double : Type 0} → Bytes → ℕ → ℕ → Rfs Double → Rfs Double
write_base name offset newval board =
    let s = board.simulator in
    record board {
      simulator = record s {
        reg_by_name = write_named (lookup name s.reg_by_name) name offset newval s.reg_by_name;
      };
    }

-- The operations on floating point numbers. T is a time: `advance n t` is the time after t for an array
-- of n words, `is_start t` is `T==0.0`, `adc t` the word of `amp * mod * sin(T)`, `start` the time 0.0.
-- `i_word t pha` and `q_word t pha` are the words of the I and Q values at a phase, `turn pha` is
-- `pha + 10.0` and `step phase` is `fmod(phase + 5.0, 360.0)`.
module _ {Double : Type 0} (i_word q_word : Double → Double → ℕ) (turn : Double → Double) where
  -- The loop over the I/Q pairs, for the n last ones: the pair n has the bits 2n-1 and 2n-2 of the mask.
  unfoldable pub pairs : ℕ → ℕ → Double → Double → ℕ × List ℕ → ℕ × List ℕ
  pairs zero mask t pha a = a
  pairs (suc n) mask t pha a =
      pairs n mask t (turn pha)
        (keep_word mask (2 * n) (q_word t pha) (keep_word mask (2 * n + 1) (i_word t pha) a))

module _ {Double : Type 0} (i_word q_word : Double → Double → ℕ) (turn : Double → Double)
    (advance : ℕ → Double → Double) (is_start : Double → Bool) (adc : Double → ℕ) where
  -- The loop over the times, for at most n rounds; fuel_out when it goes on after them.
  unfoldable pub times : ℕ → ℕ → Double → Double → Wave → Result Wave
  times zero mask phase t w = if ltb w.at (length w.arr) then err fuel_out else ok w
  times (suc n) mask phase t w =
      let a = pairs i_word q_word turn 6 mask t phase (w.at, w.arr) in
      let more = times n mask phase (advance (length w.arr) t) (record {
        at = a.0;
        arr = a.1;
        min = track_min (is_start t) (adc t) w.min;
        max = track_max (is_start t) (adc t) w.max;
      }) in
      if ltb w.at (length w.arr) then more else ok w

module _ {Double : Type 0} (i_word q_word : Double → Double → ℕ) (turn : Double → Double)
    (advance : ℕ → Double → Double) (is_start : Double → Bool) (adc : Double → ℕ)
    (start : Double) where
  -- Simulator_RFS::acquire
  unfoldable pub acquire : Shell → ℕ → Double → Regs → Result Regs
  acquire sh circle_count phase regs =
      let arr = storage sh.circle_data regs in
      let mask = get_or (storage sh.dsp_chan_keep regs) 0 0 % 2 ^ 12 in
      let tag = get_or (storage sh.dsp_tag regs) 0 0 % 2 ^ 16 in
      let done =
        times i_word q_word turn advance is_start adc (length arr) mask phase start
          (record { at = 0; arr = arr; min = 0; max = 0 })
        >>= describe sh circle_count tag regs in
      if mask == 0 then ok regs else done

  unfoldable pub acquire_if : ℕ → ℕ → Rfs Double → Regs → Result Regs
  acquire_if newval i board regs =
      let acquired = acquire (shell i) board.circle_count board.phase regs in
      if bit newval i == 1 then acquired else ok regs

module _ {Double : Type 0} (i_word q_word : Double → Double → ℕ) (turn : Double → Double)
    (advance : ℕ → Double → Double) (is_start : Double → Bool) (adc : Double → ℕ) (start : Double)
    (step : Double → Double) where
  -- Arming for newval, which has the bits of the two channels.
  unfoldable pub arm : ℕ → Rfs Double → Result (Rfs Double)
  arm newval board =
      let s = board.simulator in
      acquire_if i_word q_word turn advance is_start adc start newval 0 board
        (change_ready (λ w. land 32 w (2 ^ 32 - 1 - newval)) s.reg_by_name)
      >>= acquire_if i_word q_word turn advance is_start adc start newval 1 board
      >>= (λ regs. ok (record board {
        phase = step board.phase;
        simulator = record s { reg_by_name = change_ready (λ w. lor 32 w newval) regs };
      }))

  -- Simulator_RFS::reg_write
  unfoldable pub rfs_write : Bytes → ℕ → ℕ → Rfs Double → Result (Rfs Double)
  rfs_write name offset newval board =
      let armed = arm (newval % 4) board >>= (λ b. ok (write_base name offset (newval % 4) b)) in
      if (name === codes "circle_buf_flip") && (offset == 0) && not (newval == 0)
      then armed
      else ok (write_base name offset newval board)
