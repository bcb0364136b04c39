-- ===== src/Sim/Sound.antt =====
-- The address table of the simulator, through the commands of a request.
use feed_core.Prelude.{
  ℕ, ◌%◌, ◌^◌, ◌≡◌, refl, sym, ap, ◌∙◌, subst, Bool, true, false, [], ◌∷◌, none, some, length,
  length-set, get_or, Bytes, Bool-cases, Option-cases, inl, inr, drop, ltb, take,
}
use feed_core.Prelude.Maps.{lookup, insert, bytes_key, nat_key, AllValues-map}
use feed_core.Prelude.Words.{sub32}
use feed_core.Prelude.Bits.{land}
use feed_core.Sim.{
  SimReg, Simulator, is_read, unknown, read_or_write, at_register, at_name, command, commands,
  respond, reg_write, pkt_size_limit,
}
use feed_core.Sim.Table.{IsTabled, Located, put-Located}

-- The register after a write.
abbrev pub written : SimReg → ℕ → ℕ → SimReg
written reg addr v = reg_write reg (sub32 addr reg.base) (land 32 v reg.mask)

command_missing :
    (cmd v : ℕ) (s : Simulator)
    → lookup (cmd % 2 ^ 24) s.reg_by_addr ≡ none
    → (command cmd v s).simulator ≡ s
unfolding command at_name unknown
command_missing cmd v s h = ap (λ o. (at_name cmd v s o).simulator) h

command_dangling :
    (cmd v : ℕ) (s : Simulator) (name : Bytes)
    → lookup (cmd % 2 ^ 24) s.reg_by_addr ≡ some name
    → lookup name s.reg_by_name ≡ none
    → (command cmd v s).simulator ≡ s
unfolding command at_name at_register unknown
command_dangling cmd v s name h k =
    ap (λ o. (at_name cmd v s o).simulator) h ∙ ap (λ o. (at_register cmd v s name o).simulator) k

module _ (cmd v : ℕ) (s : Simulator) (name : Bytes) (reg : SimReg)
    (mapped : lookup (cmd % 2 ^ 24) s.reg_by_addr ≡ some name)
    (there : lookup name s.reg_by_name ≡ some reg) where
  command_found : (b : Bool) → is_read cmd ≡ b → command cmd v s ≡ read_or_write cmd v s b name reg
  unfolding command at_name at_register
  command_found b h =
      ap (at_name cmd v s) mapped
      ∙ (ap (at_register cmd v s name) there ∙ ap (λ t. read_or_write cmd v s t name reg) h)

  pub command_read :
      is_read cmd ≡ true
      → ((command cmd v s).simulator ≡ s)
        × ((command cmd v s).data_word ≡ get_or reg.storage (sub32 (cmd % 2 ^ 24) reg.base) 0)
  unfolding read_or_write
  command_read h =
      (ap (λ a. a.simulator) (command_found true h), ap (λ a. a.data_word) (command_found true h))

  pub command_write :
      is_read cmd ≡ false
      → (command cmd v s).simulator
        ≡ (record s { reg_by_name = insert name (written reg (cmd % 2 ^ 24) v) s.reg_by_name })
  unfolding read_or_write
  command_write h = ap (λ a. a.simulator) (command_found false h)

  put-IsTabled :
      (new : SimReg)
      → new.name ≡ reg.name
      → new.base ≡ reg.base
      → length new.storage ≡ length reg.storage
      → IsTabled s
      → IsTabled (record s { reg_by_name = insert name new s.reg_by_name })
  put-IsTabled new en eb el t = record {
    tabled =
        AllValues-map _ (Located (insert name new s.reg_by_name)) s.reg_by_addr
          (λ a other. put-Located s.reg_by_name name reg new a other there en eb el) t.tabled;
  }

  written-IsTabled :
      IsTabled s
      → IsTabled
          (record s { reg_by_name = insert name (written reg (cmd % 2 ^ 24) v) s.reg_by_name })
  written-IsTabled t =
      put-IsTabled (written reg (cmd % 2 ^ 24) v) (unfold reg_write in refl)
        (unfold reg_write in refl) (unfold reg_write in length-set reg.storage _ _) t

  command_found-IsTabled : IsTabled s → IsTabled (command cmd v s).simulator
  command_found-IsTabled t = elim (Bool-cases (is_read cmd)) [
    | inl e ↦ subst IsTabled (sym (command_read e).0) t
    | inr e ↦ subst IsTabled (sym (command_write e)) (written-IsTabled t)
  ]

pub command-IsTabled :
    (cmd v : ℕ) (s : Simulator) → IsTabled s → IsTabled (command cmd v s).simulator
command-IsTabled cmd v s t = elim (Option-cases (lookup (cmd % 2 ^ 24) s.reg_by_addr)) [
  | inl e ↦ subst IsTabled (sym (command_missing cmd v s e)) t
  | inr (name, e) ↦ elim (Option-cases (lookup name s.reg_by_name)) [
    | inl f ↦ subst IsTabled (sym (command_dangling cmd v s name e f)) t
    | inr (reg, f) ↦ command_found-IsTabled cmd v s name reg e f t
  ]
]

commands-IsTabled : (b : Bytes) (s : Simulator) → IsTabled s → IsTabled (commands b s).after
unfolding commands
commands-IsTabled (a ∷ b ∷ c ∷ d ∷ e ∷ f ∷ g ∷ h ∷ rest) s t =
    commands-IsTabled rest _ (command-IsTabled _ _ s t)
commands-IsTabled [] s t = t
commands-IsTabled (a ∷ []) s t = t
commands-IsTabled (a ∷ b ∷ []) s t = t
commands-IsTabled (a ∷ b ∷ c ∷ []) s t = t
commands-IsTabled (a ∷ b ∷ c ∷ d ∷ []) s t = t
commands-IsTabled (a ∷ b ∷ c ∷ d ∷ e ∷ []) s t = t
commands-IsTabled (a ∷ b ∷ c ∷ d ∷ e ∷ f ∷ []) s t = t
commands-IsTabled (a ∷ b ∷ c ∷ d ∷ e ∷ f ∷ g ∷ []) s t = t

pub respond-IsTabled : (b : Bytes) (s : Simulator) → IsTabled s → IsTabled (respond b s).1
unfolding respond
respond-IsTabled b s t = elim (Bool-cases (ltb (length (take pkt_size_limit b)) 32)) [
  | inl e ↦ rw e t
  | inr e ↦ rw e (commands-IsTabled (drop 8 (take pkt_size_limit b)) s t)
]
