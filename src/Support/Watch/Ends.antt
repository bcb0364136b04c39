-- ===== src/Support/Watch/Ends.antt =====
-- A completion of a watch after a successful reply.
use feed_core.Prelude.{
  ℕ, ◌≡◌, ◌≢◌, inl, inr, refl, ap, ◌∙◌, true, false, not, ◌||◌, Option, none, some, length, leb,
  Bool-cases, if-elim, if-true, if-false, get_or, ◌==◌, ==_iff, arith,
}
use feed_core.Prelude.Bits.{land}
use feed_core.Device.Types.{in_sync, reg_at}
use feed_core.Support.Types.{Status}
use feed_core.Support.Watch.{
  Watch, cleanup_watch, complete_record, test_word, complete_at, complete, refuse_watch,
  test_mask_at, write_test_mask, process,
}

==_false : (a b : ℕ) → a ≢ b → (a == b) ≡ false
==_false a b n = ground arith

module _ {D : Type 0} where
  ended_at :
      (w : Watch D) (o : Option ℕ) → w.prec.pact ≡ true → (test_mask_at w o).1.prec.pact ≡ false
  unfolding test_mask_at refuse_watch cleanup_watch
  ended_at w none pact = refl
  ended_at w (some p) pact =
      let r = reg_at w.device p in
      if-elim {A = Status × Watch D} (λ c. c.1.prec.pact ≡ false)
        (not r.info.readable || leb (length r.mem_rx) w.wait.base.options.offset) _ _ refl
        (if-true {A = Watch D} (λ c. c.prec.pact ≡ false) w.prec.pact _ _ pact refl)

  complete_record-ends : (w : Watch D) → (complete_record process w).prec.pact ≡ false
  unfolding complete_record write_test_mask
  complete_record-ends w = elim (Bool-cases w.prec.pact) [
    | inl e ↦
        if-true {A = Watch D} (λ c. c.prec.pact ≡ false) w.prec.pact _ _ e
          (ended_at w w.wait.base.reg e)
    | inr e ↦ if-false {A = Watch D} (λ c. c.prec.pact ≡ false) w.prec.pact _ _ e e
  ]

  complete_in_sync :
      (w : Watch D) (p : ℕ)
      → w.wait.base.reg ≡ some p
      → (reg_at w.device p).state ≡ in_sync
      → complete process w ≡ test_word process w (reg_at w.device p)
  unfolding complete
  complete_in_sync w p at sync =
      ap (complete_at process w) at ∙ (unfold complete_at in rw sync refl)

  -- A completion after a successful reply: when the word under the mask has the value, the active watch
  -- ends; otherwise it stays as active as it was and the timer starts with the delay for a retry.
  pub complete-ends :
      (w : Watch D) (p : ℕ)
      → w.wait.base.reg ≡ some p
      → (reg_at w.device p).state ≡ in_sync
      → let val =
          land 32 (get_or (reg_at w.device p).mem_rx w.wait.base.options.offset 0) w.wait.mask in
        (val ≡ w.wait.value → (complete process w).prec.pact ≡ false)
        × (val ≢ w.wait.value
            → ((complete process w).prec ≡ w.prec)
              × ((complete process w).timer ≡ some w.wait.retry))
  unfolding test_word
  complete-ends w p at sync =
      let val =
        land 32 (get_or (reg_at w.device p).mem_rx w.wait.base.options.offset 0) w.wait.mask in
      rw (complete_in_sync w p at sync) (
        λ e.
            if-true {A = Watch D} (λ c. c.prec.pact ≡ false) (val == w.wait.value) _ _
              ((==_iff val w.wait.value).1 e) (complete_record-ends w),
        λ n.
            if-false {A = Watch D} (λ c. (c.prec ≡ w.prec) × (c.timer ≡ some w.wait.retry))
              (val == w.wait.value) _ _ (==_false val w.wait.value n) (refl, refl),
      )
