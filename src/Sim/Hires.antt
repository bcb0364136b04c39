-- ===== src/Sim/Hires.antt =====
-- src/sim/simulator_hires.cpp: the simulated HIRES board, whose waveforms are filled when their reset
-- bit is set. A pointer to a register is the register's name; a register that the device lacks, for
-- which the constructor throws, has no words here. The floating point arithmetic, cos, sin and rand are
-- parameters.
pub mod Signals
pub mod Samples
pub mod Filled
pub mod Board
mod Tests
use feed_core.Prelude.{
  ℕ, zero, suc, ◌+◌, ◌^◌, ◌%◌, ◌/◌, Bool, true, false, ◌&&◌, not, List, [], Option, none, some, ltb,
  leb, ◌==◌, if◌then◌else◌, Bytes, codes, length, set, get_or,
}
use feed_core.Prelude.Bits.{land, lor, bit, all_but}
use feed_core.Prelude.Maps.{lookup, insert, bytes_key}
use feed_core.Sim.{SimReg, reg_write}

abbrev pub Regs : Type 0
Regs = List (Bytes × SimReg)

unfoldable pub words_of : Option SimReg → List ℕ
words_of none = []
words_of (some reg) = reg.storage

-- `storage` of the register.
unfoldable pub storage : Bytes → Regs → List ℕ
storage name regs = words_of (lookup name regs)

unfoldable pub put_words : Option SimReg → Bytes → List ℕ → Regs → Regs
put_words none name words regs = regs
put_words (some reg) name words regs = insert name (record reg { storage = words }) regs

-- Changing the storage of the register.
unfoldable pub store : Bytes → List ℕ → Regs → Regs
store name words regs = put_words (lookup name regs) name words regs

-- Simulator_HIRES::WF. A decim that the constructor leaves unset is taken as null.
pub record Wf (Double : Type 0) : Type 0 where
  pub buffer : Bytes
  pub reset : Bytes
  pub status : Bytes
  pub mask : Option Bytes
  pub decim : Option Bytes
  pub valid : ℕ
  pub reset_bit : ℕ
  pub status_bit : ℕ
  pub phase : Double

-- The first word of a register that may be left out, or a default.
unfoldable pub first_word : Option Bytes → ℕ → Regs → ℕ
first_word none d regs = d
first_word (some name) d regs = get_or (storage name regs) 0 0

module _ {Double : Type 0} where
  -- `reset->storage[0] &= ~(1u<<reset_bit)`
  unfoldable pub clear_reset : Wf Double → Regs → Regs
  clear_reset wf regs =
      let words = storage wf.reset regs in
      store wf.reset (set words 0 (land 32 (get_or words 0 0) (all_but 32 wf.reset_bit))) regs

  -- `(*status)[0] |= 1u<<status_bit`
  unfoldable pub set_status : Wf Double → Regs → Regs
  set_status wf regs =
      let words = storage wf.status regs in
      store wf.status (set words 0 (lor 32 (get_or words 0 0) (2 ^ wf.status_bit))) regs

  unfoldable pub finish :
      Wf Double → Regs → Option (Double × (ℕ × List ℕ)) → Option (Wf Double × Regs)
  finish wf regs none = none
  finish wf regs (some (phase, (idx, buf))) =
      some (record wf { phase = phase }, set_status wf (store wf.buffer buf regs))

-- The operations on floating point numbers: `advance decim phase` is the phase after
-- `phase += decim*2*PI/3600.`, `pulse phase pair q noise` the word that the pulse's value converts to
-- with `noise` from rand(), and `rand idx` what rand() returns for the word at idx.
module _ {Double : Type 0} (advance : ℕ → Double → Double) (pulse : Double → ℕ → ℕ → ℕ → ℕ)
    (rand : ℕ → ℕ) where
  -- The word that is stored for signal sig at time t.
  unfoldable pub value : ℕ → Double → ℕ → ℕ → ℕ
  value t phase sig idx =
      if leb 100 t && ltb t 1000 then pulse phase (sig / 2) (sig % 2) (rand idx) else 0

  -- The inner loop from signal sig on, for n more signals: the index and the buffer after it.
  unfoldable pub signals : ℕ → ℕ → ℕ → ℕ → Double → ℕ → List ℕ → ℕ × List ℕ
  signals zero selected sig t phase idx buf = (idx, buf)
  signals (suc n) selected sig t phase idx buf =
      let chosen = bit selected sig == 1 in
      let next =
        signals n selected (sig + 1) t phase (if chosen then idx + 1 else idx)
          (if chosen then set buf idx (value t phase sig idx) else buf) in
      if ltb idx (length buf) then next else (idx, buf)

  -- The outer loop, for at most n rounds; none when it goes on after them.
  unfoldable pub rounds : ℕ → ℕ → ℕ → ℕ → Double → ℕ → List ℕ → Option (Double × (ℕ × List ℕ))
  rounds zero selected decim t phase idx buf =
      if not (selected == 0) && ltb idx (length buf) then none else some (phase, (idx, buf))
  rounds (suc n) selected decim t phase idx buf =
      let moved = advance decim phase in
      let filled = signals 32 selected 0 t moved idx buf in
      let rest = rounds n selected decim ((t + decim) % 2 ^ 64) moved filled.0 filled.1 in
      if not (selected == 0) && ltb idx (length buf) then rest else some (phase, (idx, buf))

  unfoldable pub fill : Wf Double → Regs → Option (Double × (ℕ × List ℕ))
  fill wf regs =
      let buf = storage wf.buffer regs in
      rounds (length buf) (first_word wf.mask wf.valid regs) (first_word wf.decim 1 regs) 0 wf.phase
        0 buf

  -- Simulator_HIRES::WF::process; none is a loop that has not ended.
  unfoldable pub process : Wf Double → Regs → Option (Wf Double × Regs)
  process wf regs =
      let cleared = clear_reset wf regs in
      let done = finish wf cleared (fill wf cleared) in
      if bit (get_or (storage wf.reset regs) 0 0) wf.reset_bit == 1 then done else some (wf, regs)
