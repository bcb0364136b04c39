-- ===== src/Support/Persisted.antt =====
-- What persistSettings of src/driver/devreg.cpp changes in the device.
use feed_core.Prelude.{
  ℕ, ◌<◌, ◌≡◌, refl, sym, ap, ◌∙◌, subst, false, List, some, length, Bool-cases, inl, inr, if-elim,
  if-false, true-ne-false, ==_iff, ◌==◌, not,
}
use feed_core.Device.Types.{Device, reg_at, set_reg, write_alarm}
use feed_core.Device.Store.{reg_at-set_reg_self, reg_at-set_reg_ne}
use feed_core.Device.Waiting.{waiting}
use feed_core.Support.Types.{Doubles, Ftype, Elem, Prec, Info, Call, caught, refused, is_supported}
use feed_core.Support.Write.{
  write_register_common, write_attached, start_write, copy_out, is_writable,
}
use feed_core.Support.Connect.{Hooks, Connected, with_commit, persist_settings}

-- Nothing is queued: the send queue, the records to complete, and what goes on at the register q.
pub record IsQuiet (q : ℕ) (d d' : Device) : Type 0 where
  pub same_sending : d'.reg_send ≡ d.reg_send
  pub same_records : d'.records ≡ d.records
  pub same_packets : d'.packets ≡ d.packets
  pub same_state : (reg_at d' q).state ≡ (reg_at d q).state
  pub same_waiting : waiting (reg_at d' q) ≡ waiting (reg_at d q)
  pub same_flags :
      ((reg_at d' q).read_queued ≡ (reg_at d q).read_queued)
      × ((reg_at d' q).write_queued ≡ (reg_at d q).write_queued)

IsQuiet-refl : (q : ℕ) (d : Device) → IsQuiet q d d
IsQuiet-refl q d = record {
  same_sending = refl;
  same_records = refl;
  same_packets = refl;
  same_state = refl;
  same_waiting = refl;
  same_flags = (refl, refl);
}

-- A register that keeps all but its send memory.
tx_written :
    (d : Device) (p q : ℕ) (mem : List ℕ)
    → p < length d.regs
    → (m : List ℕ) × (reg_at (set_reg d p (record (reg_at d p) { mem_tx = mem })) q
        ≡ record (reg_at d q) { mem_tx = m })
tx_written d p q mem valid =
    let r = record (reg_at d p) { mem_tx = mem } in
    elim (Bool-cases (p == q)) [
      | inl e ↦ (
        mem,
        subst (λ z. reg_at (set_reg d p r) z ≡ record (reg_at d z) { mem_tx = mem })
            ((==_iff p q).0 e) (reg_at-set_reg_self d p r valid),
      )
      | inr e ↦
          ((reg_at d q).mem_tx, reg_at-set_reg_ne d p q r (λ n. true-ne-false ((==_iff p q).1 n) e))
    ]

module _ ⦃F : Doubles⦄ (t : Ftype) (xs : List (Elem F.Double t)) (info : Info F.Double)
    (prec : Prec) (d : Device) (p : ℕ) (valid : p < length d.regs) (q : ℕ) where
  copy_out-IsQuiet : IsQuiet q d (copy_out t info p xs d)
  unfolding copy_out
  copy_out-IsQuiet =
      let w = tx_written d p q _ valid in
      record {
        same_sending = unfold set_reg in refl;
        same_records = unfold set_reg in refl;
        same_packets = unfold set_reg in refl;
        same_state = ap (λ r. r.state) w.1;
        same_waiting = ap waiting w.1;
        same_flags = (ap (λ r. r.read_queued) w.1, ap (λ r. r.write_queued) w.1);
      }

-- Shut, so that the call stays as the code writes it.
unfoldable Quiets : ℕ → Device → Call → Type 0
Quiets q d c = IsQuiet q d c.device

same-Quiets : (q : ℕ) (d : Device) (c : Call) → c.device ≡ d → Quiets q d c
unfolding Quiets
same-Quiets q d c e = rw e (IsQuiet-refl q d)

without_commit :
    {D : Type 0} (info : Info D)
    → ((with_commit false info).options.commit ≡ false)
      × ((with_commit false info).reg ≡ info.reg)
      × (with_commit info.options.commit (with_commit false info) ≡ info)
unfolding with_commit
without_commit info = (refl, refl, refl)

IsQuiet-device : (q : ℕ) (d : Device) (c : Call) → Quiets q d c → IsQuiet q d c.device
unfolding Quiets
IsQuiet-device q d c h = h

copied-Quiets : (q : ℕ) (d : Device) (c : Call) → IsQuiet q d c.device → Quiets q d c
unfolding Quiets
copied-Quiets q d c h = h

module _ ⦃F : Doubles⦄ (t : Ftype) (xs : List (Elem F.Double t)) (info : Info F.Double)
    (prec : Prec) (d : Device) (p : ℕ) (valid : p < length d.regs)
    (off : info.options.commit ≡ false) (q : ℕ) where
  caught-Quiets : Quiets q d (caught prec d)
  unfolding caught
  caught-Quiets = same-Quiets q d _ refl

  refused-Quiets : Quiets q d (refused write_alarm prec d)
  unfolding refused
  refused-Quiets = same-Quiets q d _ refl

  start_write-Quiets : Quiets q d (start_write t info p xs prec d)
  unfolding start_write
  start_write-Quiets =
      if-false (Quiets q d) info.options.commit _ _ off
        (copied-Quiets q d _ (copy_out-IsQuiet t xs info prec d p valid q))

  attached-Quiets : Quiets q d (write_attached t info xs prec d (some p))
  unfolding write_attached
  attached-Quiets =
      if-elim (Quiets q d) (not (is_writable info (reg_at d p) (length xs))) _ _ refused-Quiets
        (if-elim (Quiets q d) prec.pact _ _ (same-Quiets q d _ refl) start_write-Quiets)

  common-Quiets : info.reg ≡ some p → Quiets q d (write_register_common t xs (some info) prec d)
  unfolding write_register_common
  common-Quiets at =
      if-elim (Quiets q d) (is_supported t) _ _
        (subst (λ o. Quiets q d (write_attached t info xs prec d o)) (sym at) attached-Quiets)
        caught-Quiets

-- The hooks of an output record with the elements xs in its VAL.
abbrev pub writing_hooks :
    ⦃F : Doubles⦄ (t : Ftype) → List (Elem F.Double t) → (Prec → Prec × ℕ) → Hooks F.Double
writing_hooks t xs reset = record {
  readwrite = λ info prec d. write_register_common t xs (some info) prec d;
  reset_alarms = reset;
}

-- persistSettings of an output record on the register p queues nothing, whatever the record's commit
-- says: the send queue, the records to complete, the packets, and at every register the state, the
-- waiting records and the queued operations are as they were; and it leaves the RecInfo as it was.
pub persist_settings-IsQuiet :
    ⦃F : Doubles⦄ (t : Ftype) (xs : List (Elem F.Double t)) (reset : Prec → Prec × ℕ)
    (info : Info F.Double) (prec : Prec) (d : Device) (p q : ℕ)
    → p < length d.regs
    → info.reg ≡ some p
    → let c = persist_settings (writing_hooks t xs reset) info prec d in
      IsQuiet q d c.device × (c.info ≡ info)
unfolding persist_settings
persist_settings-IsQuiet ⦃F⦄ t xs reset info prec d p q valid at =
    let w = without_commit info in
    if-elim {A = Connected F.Double} (λ c. IsQuiet q d c.device × (c.info ≡ info)) prec.udf _ _
      (IsQuiet-refl q d, refl)
      (
        IsQuiet-device q d _
            (common-Quiets t xs (with_commit false info) prec d p valid w.0 q (w.1 ∙ at)),
        w.2,
      )
