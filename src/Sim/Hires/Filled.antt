-- ===== src/Sim/Hires/Filled.antt =====
-- src/sim/simulator_hires.cpp: what WF::process leaves in the registers.
use feed_core.Prelude.{
  ℕ, ◌^◌, ◌≡◌, ◌≢◌, ◌<◌, ◌≤◌, refl, sym, ap, ◌∙◌, arith, true, false, List, [], ◌∷◌, Option, none,
  some, ◌==◌, length, length-set, set, get_or, get_or-set_self, Bool-cases, inl, inr, if-true,
  true-ne-false, subst, Bytes, ◌===◌, ===-refl, ===-eq,
}
use feed_core.Prelude.Bits.{bit, land, lor, all_but, bit-land, bit-lor, bit-power, bit-all_but}
use feed_core.Prelude.Maps.{lookup, bytes_key, lookup-insert}
use feed_core.Sim.{SimReg}
use feed_core.Sim.Hires.{
  Wf, Regs, words_of, storage, put_words, store, first_word, clear_reset, set_status, fill, finish,
  process,
}
use feed_core.Sim.Hires.Signals.{IsFull, rounds-ends}
use feed_core.Sim.Hires.Samples.{IsSample, Sampled, rounds-Sampled}

===-ne : (a b : Bytes) → a ≢ b → (a === b) ≡ false
===-ne a b n = elim (Bool-cases (a === b)) [ inl e ↦ absurd (n (===-eq a b e)) | inr e ↦ e ]

pub ===-apart : (a b : Bytes) → (a === b) ≡ false → a ≢ b
===-apart a b h e = true-ne-false (subst (λ x. (a === x) ≡ true) e (===-refl a)) h

empty : (xs : List ℕ) → length xs ≡ 0 → xs ≡ []
empty [] h = refl
empty (x ∷ xs) h = absurd (omega arith)

-- A write to the storage of a register: of the same length, it is what is read; other registers keep
-- theirs.
pub storage-store :
    (name : Bytes) (words : List ℕ) (regs : Regs)
    → length words ≡ length (storage name regs)
    → storage name (store name words regs) ≡ words
unfolding storage store put_words words_of
storage-store name words regs h = stored (lookup name regs) refl h
  where
    stored :
        (r : Option SimReg)
        → lookup name regs ≡ r
        → length words ≡ length (words_of r)
        → words_of (lookup name (put_words r name words regs)) ≡ words
    stored none e h = ap words_of e ∙ sym (empty words h)
    stored (some reg) e h =
        rw (lookup-insert name name (record reg { storage = words }) regs, ===-refl name) refl

pub storage-store_ne :
    (name other : Bytes) (words : List ℕ) (regs : Regs)
    → name ≢ other
    → storage other (store name words regs) ≡ storage other regs
unfolding storage store put_words
storage-store_ne name other words regs n = kept (lookup name regs)
  where
    kept :
        (r : Option SimReg)
        → words_of (lookup other (put_words r name words regs)) ≡ words_of (lookup other regs)
    kept none = refl
    kept (some reg) =
        rw (lookup-insert name other (record reg { storage = words }) regs, ===-ne name other n)
          refl

module _ {Double : Type 0} where
  reset_cleared :
      (wf : Wf Double) (regs : Regs)
      → wf.reset_bit < 32
      → 0 < length (storage wf.reset regs)
      → bit (get_or (storage wf.reset (clear_reset wf regs)) 0 0) wf.reset_bit ≡ 0
  unfolding clear_reset
  reset_cleared wf regs b h =
      let words = storage wf.reset regs in
      let low = land 32 (get_or words 0 0) (all_but 32 wf.reset_bit) in
      rw
        (
          storage-store wf.reset (set words 0 low) regs (length-set words 0 low),
          get_or-set_self words 0 low 0 h,
          bit-land 32 (get_or words 0 0) (all_but 32 wf.reset_bit) wf.reset_bit b,
          bit-all_but 32 wf.reset_bit b,
        )
        (omega arith)

  status_set :
      (wf : Wf Double) (regs : Regs)
      → wf.status_bit < 32
      → 0 < length (storage wf.status regs)
      → bit (get_or (storage wf.status (set_status wf regs)) 0 0) wf.status_bit ≡ 1
  unfolding set_status
  status_set wf regs b h =
      let words = storage wf.status regs in
      let high = lor 32 (get_or words 0 0) (2 ^ wf.status_bit) in
      rw
        (
          storage-store wf.status (set words 0 high) regs (length-set words 0 high),
          get_or-set_self words 0 high 0 h,
          bit-lor 32 (get_or words 0 0) (2 ^ wf.status_bit) wf.status_bit b,
          bit-power wf.status_bit,
        )
        (omega arith)

  cleared_other :
      (wf : Wf Double) (regs : Regs) (name : Bytes)
      → wf.reset ≢ name
      → storage name (clear_reset wf regs) ≡ storage name regs
  unfolding clear_reset
  cleared_other wf regs name n = storage-store_ne wf.reset name _ regs n

  set_other :
      (wf : Wf Double) (regs : Regs) (name : Bytes)
      → wf.status ≢ name
      → storage name (set_status wf regs) ≡ storage name regs
  unfolding set_status
  set_other wf regs name n = storage-store_ne wf.status name _ regs n

  -- The three registers that a waveform writes to are three.
  pub record IsApart (wf : Wf Double) : Type 0 where
    pub status_reset : wf.status ≢ wf.reset
    pub status_buffer : wf.status ≢ wf.buffer
    pub buffer_reset : wf.buffer ≢ wf.reset

module _ {Double : Type 0} (advance : ℕ → Double → Double) (pulse : Double → ℕ → ℕ → ℕ → ℕ)
    (rand : ℕ → ℕ) (wf : Wf Double) (regs : Regs) where
  -- The signals that are selected once the reset bit is clear.
  abbrev pub selection : ℕ
  selection = first_word wf.mask wf.valid (clear_reset wf regs)

  -- What `process` leaves: it ended, the reset bit is clear, the status bit is set, the buffer has the
  -- length it had, each of its words is a sample of a selected signal, or unchanged if none is selected,
  -- and no other register changed.
  pub record IsCaptured (r : Option (Wf Double × Regs)) : Type 0 where
    pub after : Wf Double
    pub written : Regs
    pub ends : r ≡ some (after, written)
    pub cleared : bit (get_or (storage wf.reset written) 0 0) wf.reset_bit ≡ 0
    pub ready : bit (get_or (storage wf.status written) 0 0) wf.status_bit ≡ 1
    pub sized : length (storage wf.buffer written) ≡ length (storage wf.buffer regs)
    pub samples :
        0 < selection
        → (k : ℕ) → k < length (storage wf.buffer written)
        → IsSample advance pulse rand selection k (get_or (storage wf.buffer written) k 0)
    pub idle : selection ≡ 0 → storage wf.buffer written ≡ storage wf.buffer regs
    pub others :
        (name : Bytes)
        → wf.reset ≢ name
        → wf.status ≢ name
        → wf.buffer ≢ name
        → storage name written ≡ storage name regs

  -- The registers after the loop over the buffer has ended.
  finished :
      (f : IsFull selection
        (storage wf.buffer (clear_reset wf regs))
        (fill advance pulse rand wf (clear_reset wf regs)))
      → Sampled advance pulse rand selection (f.at, f.filled)
      → IsApart wf
      → wf.reset_bit < 32
      → wf.status_bit < 32
      → 0 < length (storage wf.reset regs)
      → 0 < length (storage wf.status regs)
      → IsCaptured (
          some (
            record wf { phase = f.out },
            set_status wf (store wf.buffer f.filled (clear_reset wf regs)),
          ))
  finished f sampled apart rb sb hr hs = record {
    after = record wf { phase = f.out };
    written = set_status wf stored;
    ends = refl;
    cleared =
        rw
          (
            set_other wf stored wf.reset apart.status_reset,
            storage-store_ne wf.buffer wf.reset f.filled base apart.buffer_reset,
          )
          (reset_cleared wf regs rb hr);
    ready = status_set wf stored sb (rw status_kept hs);
    sized = ap length buffer_after ∙ (f.same ∙ ap length buffer_before);
    samples = λ p k u.
        let len : length (storage wf.buffer (set_status wf stored)) ≡ length f.filled =
          ap length buffer_after in
        let full : length f.filled ≤ f.at = omega (arith, f.same, f.reached p) in
        subst (λ b. IsSample advance pulse rand selection k (get_or b k 0)) (sym buffer_after)
          (sampled k (omega (arith, len, full)) (omega (arith, len)));
    idle = λ z. buffer_after ∙ (f.idle z ∙ buffer_before);
    others = λ name nr ns nb.
        set_other wf stored name ns
        ∙ (storage-store_ne wf.buffer name f.filled base nb ∙ cleared_other wf regs name nr);
  }
    where
      base : Regs
      base = clear_reset wf regs

      stored : Regs
      stored = store wf.buffer f.filled base

      buffer_before : storage wf.buffer base ≡ storage wf.buffer regs
      buffer_before = cleared_other wf regs wf.buffer (λ e. apart.buffer_reset (sym e))

      status_kept : storage wf.status stored ≡ storage wf.status regs
      status_kept =
          storage-store_ne wf.buffer wf.status f.filled base (λ e. apart.status_buffer (sym e))
          ∙ cleared_other wf regs wf.status (λ e. apart.status_reset (sym e))

      buffer_after : storage wf.buffer (set_status wf stored) ≡ f.filled
      buffer_after =
          set_other wf stored wf.buffer apart.status_buffer
          ∙ storage-store wf.buffer f.filled base f.same

  -- When its reset bit is set, a waveform's `process` returns, whatever its mask selects. The reset bit
  -- is then clear, the status bit is set, the buffer has its length, each of its words is a sample of a
  -- selected signal (the old word, if no signal is selected), and every other register has its words.
  -- The conditions: the three registers are different ones, the bits are of a 32-bit word, the reset
  -- and status registers have a word, and the selection is a 32-bit word.
  pub process-IsCaptured :
      IsApart wf
      → wf.reset_bit < 32
      → wf.status_bit < 32
      → 0 < length (storage wf.reset regs)
      → 0 < length (storage wf.status regs)
      → bit (get_or (storage wf.reset regs) 0 0) wf.reset_bit ≡ 1
      → selection < 2 ^ 32
      → IsCaptured (process advance pulse rand wf regs)
  unfolding process fill finish
  process-IsCaptured apart rb sb hr hs set u =
      let base = clear_reset wf regs in
      let buf = storage wf.buffer base in
      let decim = first_word wf.decim 1 base in
      let f =
        rounds-ends advance pulse rand (length buf) selection decim 0 wf.phase 0 buf u
          (omega arith) in
      let sampled =
        rounds-Sampled advance pulse rand selection (length buf) decim 0 wf.phase 0 buf f.out
          (f.at, f.filled) (λ k l. absurd (omega arith)) f.ends in
      if-true IsCaptured (bit (get_or (storage wf.reset regs) 0 0) wf.reset_bit == 1) _
        (some (wf, regs)) (ground arith)
        (subst (λ r. IsCaptured (finish wf base r)) (sym f.ends)
          (finished f sampled apart rb sb hr hs))
