-- ===== src/Sim/Memory.antt =====
-- The simulator as a memory of words.
use feed_core.Prelude.{
  ℕ, ◌+◌, ◌-◌, ◌%◌, ◌^◌, ◌≡◌, ◌≢◌, ◌<◌, ◌≤◌, refl, sym, ap, ◌∙◌, subst, true, false, some, arith,
  length, get_or, get_or-set_self, get_or-set_ne, Bytes, Bool-cases, inl, inr, ◌===◌, ===-eq,
  ===-refl,
}
use feed_core.Prelude.Maps.{
  lookup, insert, bytes_key, nat_key, lookup-insert, lookup-AllValues, some_injective,
}
use feed_core.Prelude.Words.{sub32}
use feed_core.Sim.{SimReg, Simulator, is_read, command, reg_write}
use feed_core.Prelude.Bits.{land, land_idem}
use feed_core.Sim.Table.{IsTabled, Located}
use feed_core.Sim.Sound.{written, command_read, command_write, command-IsTabled}

-- Reading the address a, whatever the data word of the command.
abbrev pub read_word : ℕ → ℕ → Simulator → ℕ
read_word a w s = (command (a + 2 ^ 28) w s).data_word

read_command : (a : ℕ) → a < 2 ^ 24 → (is_read (a + 2 ^ 28) ≡ true) × ((a + 2 ^ 28) % 2 ^ 24 ≡ a)
unfolding is_read
read_command a h = (ground arith, omega arith)

write_command : (a : ℕ) → a < 2 ^ 24 → (is_read a ≡ false) × (a % 2 ^ 24 ≡ a)
unfolding is_read
write_command a h = (ground arith, omega arith)

read_at :
    (a w : ℕ) (s : Simulator) (name : Bytes) (reg : SimReg)
    → a < 2 ^ 24
    → lookup a s.reg_by_addr ≡ some name
    → lookup name s.reg_by_name ≡ some reg
    → read_word a w s ≡ get_or reg.storage (sub32 a reg.base) 0
read_at a w s name reg h mapped there =
    let c = read_command a h in
    (command_read (a + 2 ^ 28) w s name reg
      (subst (λ t. lookup t s.reg_by_addr ≡ some name) (sym c.1) mapped) there c.0).1
    ∙ ap (λ t. get_or reg.storage (sub32 t reg.base) 0) c.1

write_at :
    (a v : ℕ) (s : Simulator) (name : Bytes) (reg : SimReg)
    → a < 2 ^ 24
    → lookup a s.reg_by_addr ≡ some name
    → lookup name s.reg_by_name ≡ some reg
    → (command a v s).simulator
      ≡ (record s { reg_by_name = insert name (written reg a v) s.reg_by_name })
write_at a v s name reg h mapped there =
    let c = write_command a h in
    command_write a v s name reg (subst (λ t. lookup t s.reg_by_addr ≡ some name) (sym c.1) mapped)
      there c.0
    ∙ ap (λ t. (record s { reg_by_name = insert name (written reg t v) s.reg_by_name })) c.1

offset_inside :
    (base a n : ℕ)
    → base ≤ a
    → a < base + n
    → a < 2 ^ 24
    → (sub32 a base ≡ a - base) × (a - base < n)
offset_inside base a n h k l = (omega arith, omega arith)

written_get :
    (reg : SimReg) (a v : ℕ)
    → sub32 a reg.base < length reg.storage
    → get_or (written reg a v).storage (sub32 a (written reg a v).base) 0 ≡ land 32 v reg.mask
unfolding reg_write
written_get reg a v h =
    get_or-set_self reg.storage (sub32 a reg.base) (land 32 (land 32 v reg.mask) reg.mask) 0 h
    ∙ land_idem 32 v reg.mask

written_get_ne :
    (reg : SimReg) (a b v : ℕ)
    → sub32 a reg.base ≢ sub32 b reg.base
    → get_or (written reg a v).storage (sub32 b (written reg a v).base) 0
      ≡ get_or reg.storage (sub32 b reg.base) 0
unfolding reg_write
written_get_ne reg a b v h = get_or-set_ne reg.storage (sub32 a reg.base) (sub32 b reg.base) _ 0 h

module _ (s : Simulator) (t : IsTabled s) (a v w : ℕ) (name : Bytes) (low : a < 2 ^ 24)
    (mapped : lookup a s.reg_by_addr ≡ some name) where
  located : Located s.reg_by_name a name
  located = lookup-AllValues (Located s.reg_by_name) s.reg_by_addr a name t.tabled mapped

  written_self :
      (reg : SimReg)
      → lookup name s.reg_by_name ≡ some reg
      → lookup name (insert name (written reg a v) s.reg_by_name) ≡ some (written reg a v)
  written_self reg there =
      lookup-insert name name (written reg a v) s.reg_by_name ∙ (rw (===-refl name) refl)

  read_self :
      (l : Located s.reg_by_name a name)
      → read_word a w (command a v s).simulator ≡ land 32 v l.reg.mask
  read_self l =
      let o = offset_inside l.reg.base a (length l.reg.storage) l.from_base l.inside low in
      ap (read_word a w) (write_at a v s name l.reg low mapped l.found)
      ∙ (read_at a w _ name (written l.reg a v) low mapped (written_self l.reg l.found)
          ∙ written_get l.reg a v (subst (λ x. x < length l.reg.storage) (sym o.0) o.1))

  read_same_register :
      (b : ℕ)
      → b < 2 ^ 24
      → a ≢ b
      → (l : Located s.reg_by_name a name) → lookup b s.reg_by_addr ≡ some name
      → l.reg.base ≤ b
      → read_word b w (command a v s).simulator ≡ read_word b w s
  read_same_register b low_b n l mapped_b from_base =
      let apart : sub32 a l.reg.base ≢ sub32 b l.reg.base = λ e. n (omega (arith, l.from_base)) in
      ap (read_word b w) (write_at a v s name l.reg low mapped l.found)
      ∙ (read_at b w _ name (written l.reg a v) low_b mapped_b (written_self l.reg l.found)
          ∙ (written_get_ne l.reg a b v apart
              ∙ sym (read_at b w s name l.reg low_b mapped_b l.found)))

  read_other :
      (b : ℕ) (other : Bytes)
      → b < 2 ^ 24
      → a ≢ b
      → Located s.reg_by_name a name
      → lookup b s.reg_by_addr ≡ some other
      → Located s.reg_by_name b other
      → read_word b w (command a v s).simulator ≡ read_word b w s
  read_other b other low_b n l mapped_b k = elim (Bool-cases (name === other)) [
    | inl e ↦
        let same = ===-eq name other e in
        let found = subst (λ x. lookup x s.reg_by_name ≡ some k.reg) (sym same) k.found in
        let reg = some_injective (sym found ∙ l.found) in
        read_same_register b low_b n l
          (subst (λ x. lookup b s.reg_by_addr ≡ some x) (sym same) mapped_b)
          (subst (λ r. r.base ≤ b) reg k.from_base)
    | inr e ↦
        ap (read_word b w) (write_at a v s name l.reg low mapped l.found)
        ∙ (read_at b w _ other k.reg low_b mapped_b
              (lookup-insert name other (written l.reg a v) s.reg_by_name ∙ (rw e k.found))
            ∙ sym (read_at b w s other k.reg low_b mapped_b k.found))
  ]

-- In a simulator whose table is sound, a word that is written through a mapped address of 24 bits
-- reads there as the word within the register's mask, and every other mapped address of 24 bits
-- reads as before. Its table stays sound.
pub write-read :
    (s : Simulator) (a v w : ℕ) (name : Bytes)
    → IsTabled s
    → a < 2 ^ 24
    → lookup a s.reg_by_addr ≡ some name
    → IsTabled (command a v s).simulator
      × ((reg : SimReg) × (lookup name s.reg_by_name ≡ some reg)
          × (read_word a w (command a v s).simulator ≡ land 32 v reg.mask))
      × ((b : ℕ) (other : Bytes)
          → b < 2 ^ 24
          → a ≢ b
          → lookup b s.reg_by_addr ≡ some other
          → read_word b w (command a v s).simulator ≡ read_word b w s)
write-read s a v w name t low mapped =
    let l = located s t a v w name low mapped in
    (
      command-IsTabled a v s t,
      (l.reg, l.found, read_self s t a v w name low mapped l),
      λ b other low_b n mapped_b.
          read_other s t a v w name low mapped b other low_b n l mapped_b
            (located s t b v w other low_b mapped_b),
    )
