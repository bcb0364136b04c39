-- ===== src/Support/Watch/Tended.antt =====
-- What an active watch of src/driver/devwatch.cpp waits for.
use mathlib.Core.List.{Perm}
use feed_core.Prelude.{
  ℕ, ◌<◌, ◌≡◌, inl, inr, refl, sym, ap, ◌∙◌, subst, true, false, not, ◌||◌, List, ◌∷◌, Option, none,
  some, length, leb, Bool-cases, if-elim, if-true, if-false, true-ne-false, get_or, ◌==◌,
}
use feed_core.Prelude.Bits.{land}
use feed_core.Device.Types.{DevReg, reg_at, Outcome, done, throws}
use feed_core.Device.Register.{queue}
use feed_core.Device.Waiting.{waiting, queue-Kept, queue-Unsupported, returns}
use feed_core.Device.Worker.{is_in_sync}
use feed_core.Support.Types.{Status}
use feed_core.Support.Watch.{
  Watch, cleanup_watch, complete_record, test_word, complete_at, complete, requeued, retry_at,
  expire, started, refuse_watch, test_mask_at, write_test_mask, process,
}

none-ne-some {ℓ} : {A : Type ℓ} {x : A} → none ≡ some x → ⊥
none-ne-some e = cc

module _ {D : Type 0} where
  -- Not active, or the timer is pending, or the record is one of those that wait on its register.
  pub data IsTended (w : Watch D) : Type 0 where
    rests : w.prec.pact ≡ false → IsTended w
    delayed : (delay : D) → w.timer ≡ some delay → IsTended w
    waits :
        (p : ℕ) (rest : List ℕ)
        → w.wait.base.reg ≡ some p
        → Perm (waiting (reg_at w.device p)) (w.wait.base.self ∷ rest)
        → IsTended w

  -- The register of the watch exists.
  abbrev pub HasRegister : Watch D → Type 0
  HasRegister w = (p : ℕ) → w.wait.base.reg ≡ some p → p < length w.device.regs

  started-IsTended :
      (w : Watch D) (p : ℕ)
      → w.wait.base.reg ≡ some p
      → p < length w.device.regs
      → (q : Outcome) → queue p false (some w.wait.base.self) w.device ≡ q
      → IsTended (started w q)
  unfolding started cleanup_watch
  started-IsTended w p at valid (throws e d) from = rests refl
  started-IsTended w p at valid (done d) from =
      waits p _ at (queue-Kept p false (some w.wait.base.self) w.device d valid from).waits

  refuse_watch-IsTended : (w : Watch D) → IsTended (refuse_watch w).1
  unfolding refuse_watch cleanup_watch
  refuse_watch-IsTended w = rests refl

  test_mask_at-IsTended :
      (w : Watch D) (p : ℕ)
      → w.wait.base.reg ≡ some p
      → p < length w.device.regs
      → IsTended (test_mask_at w (some p)).1
  unfolding test_mask_at
  test_mask_at-IsTended w p at valid =
      let r = reg_at w.device p in
      if-elim {A = Status × Watch D} (λ c. IsTended c.1)
        (not r.info.readable || leb (length r.mem_rx) w.wait.base.options.offset) _ _
        (refuse_watch-IsTended w)
        (if-elim {A = Watch D} IsTended w.prec.pact _ _ (rests refl)
          (started-IsTended w p at valid (queue p false (some w.wait.base.self) w.device) refl))

  with_register :
      (o : Option ℕ) (w : Watch D)
      → w.wait.base.reg ≡ o
      → ((p : ℕ) → o ≡ some p → p < length w.device.regs)
      → IsTended (test_mask_at w o).1
  with_register none w at valid = unfold test_mask_at in refuse_watch-IsTended w
  with_register (some p) w at valid = test_mask_at-IsTended w p at (valid p refl)

  pub write_test_mask-IsTended : (w : Watch D) → HasRegister w → IsTended (write_test_mask w).1
  unfolding write_test_mask
  write_test_mask-IsTended w valid = with_register w.wait.base.reg w refl valid

  complete_record-IsTended : (w : Watch D) → HasRegister w → IsTended (complete_record process w)
  unfolding complete_record
  complete_record-IsTended w valid = elim (Bool-cases w.prec.pact) [
    | inl e ↦ if-true IsTended w.prec.pact _ _ e (write_test_mask-IsTended w valid)
    | inr e ↦ if-false IsTended w.prec.pact _ _ e (rests e)
  ]

  test_word-IsTended : (w : Watch D) (r : DevReg) → HasRegister w → IsTended (test_word process w r)
  unfolding test_word
  test_word-IsTended w r valid =
      if-elim {A = Watch D} IsTended
        (land 32 (get_or r.mem_rx w.wait.base.options.offset 0) w.wait.mask == w.wait.value) _ _
        (complete_record-IsTended w valid) (delayed w.wait.retry refl)

  complete_at-IsTended :
      (w : Watch D) (o : Option ℕ) → HasRegister w → IsTended (complete_at process w o)
  unfolding complete_at
  complete_at-IsTended w none valid = complete_record-IsTended w valid
  complete_at-IsTended w (some p) valid =
      if-elim {A = Watch D} IsTended (is_in_sync (reg_at w.device p).state) _ _
        (test_word-IsTended w (reg_at w.device p) valid) (complete_record-IsTended w valid)

  pub complete-IsTended : (w : Watch D) → HasRegister w → IsTended (complete process w)
  unfolding complete
  complete-IsTended w valid = complete_at-IsTended w w.wait.base.reg valid

  requeued-IsTended :
      (w : Watch D) (p : ℕ)
      → w.wait.base.reg ≡ some p
      → p < length w.device.regs
      → (reg_at w.device p).info.readable ≡ true
      → (q : Outcome) → queue p false (some w.wait.base.self) w.device ≡ q
      → IsTended (requeued w q)
  unfolding requeued
  requeued-IsTended w p at valid readable (throws e d) from =
      let u = (queue-Unsupported p false (some w.wait.base.self) w.device).0.0 (ap returns from) in
      absurd (true-ne-false readable u.1)
  requeued-IsTended w p at valid readable (done d) from =
      waits p _ at (queue-Kept p false (some w.wait.base.self) w.device d valid from).waits

  retry_at-IsTended :
      (w : Watch D) (p : ℕ)
      → w.wait.base.reg ≡ some p
      → p < length w.device.regs
      → (reg_at w.device p).info.readable ≡ true
      → IsTended (retry_at w (some p))
  unfolding retry_at
  retry_at-IsTended w p at valid readable =
      requeued-IsTended w p at valid readable (queue p false (some w.wait.base.self) w.device) refl

  pub expire-IsTended :
      (w : Watch D) (p : ℕ)
      → w.wait.base.reg ≡ some p
      → p < length w.device.regs
      → (reg_at w.device p).info.readable ≡ true
      → IsTended (expire w)
  unfolding expire
  expire-IsTended w p at valid readable =
      subst (λ o. IsTended (retry_at (record w { timer = none }) o)) (sym at)
        (retry_at-IsTended (record w { timer = none }) p at valid readable)

  -- What happens to a watch: EPICS processes the record, the worker completes it, or the timer expires,
  -- while the record is attached to a register that can be read.
  pub data Step (w w' : Watch D) : Type 0 where
    processed : w' ≡ process w → Step w w'
    completed : w' ≡ complete process w → Step w w'
    expired :
        (p : ℕ)
        → w.wait.base.reg ≡ some p
        → (reg_at w.device p).info.readable ≡ true
        → w' ≡ expire w
        → Step w w'

  Step-IsTended : (w w' : Watch D) → HasRegister w → Step w w' → IsTended w'
  Step-IsTended w w' valid (processed e) = subst IsTended (sym e) (write_test_mask-IsTended w valid)
  Step-IsTended w w' valid (completed e) = subst IsTended (sym e) (complete-IsTended w valid)
  Step-IsTended w w' valid (expired p at readable e) =
      subst IsTended (sym e) (expire-IsTended w p at (valid p at) readable)

  expire_detached : (w : Watch D) → w.wait.base.reg ≡ none → expire w ≡ record w { timer = none }
  unfolding expire
  expire_detached w at = ap (retry_at (record w { timer = none })) at ∙ (unfold retry_at in refl)

  -- A watch that is left active by a timer that expires with no register to ask: its timer is not
  -- pending, and the device is as it was, so no register was asked.
  pub record IsStranded (w w' : Watch D) : Type 0 where
    pub active_still : w'.prec.pact ≡ true
    pub no_timer : w'.timer ≡ none
    pub same_device : w'.device ≡ w.device

  expire-IsStranded :
      (w : Watch D) → w.wait.base.reg ≡ none → w.prec.pact ≡ true → IsStranded w (expire w)
  expire-IsStranded w at pact =
      subst (IsStranded w) (sym (expire_detached w at))
        (record { active_still = pact; no_timer = refl; same_device = refl })

  -- A step of a watch whose register, if it has one, exists leaves the watch tended: not active, or with
  -- its timer pending, or among the records that wait on its register. The steps are the processing of
  -- the record, a completion, and the timer, this for a watch with a register that can be read. When the
  -- timer of an active watch without a register expires, the watch stays active with no timer pending,
  -- and the device is as it was: nothing is asked for.
  pub watch-IsTended :
      (w w' : Watch D)
      → HasRegister w
      → (Step w w' → IsTended w')
        × (w.wait.base.reg ≡ none → w.prec.pact ≡ true → IsStranded w (expire w))
  watch-IsTended w w' valid = (Step-IsTended w w' valid, expire-IsStranded w)
