-- ===== src/Support/Signals/Forward.antt =====
-- The writes of src/driver/devsignal.cpp and the steps of the records.
use feed_core.Prelude.{
  ℕ, zero, suc, ◌<◌, ◌≡◌, ◌⊎◌, inl, inr, refl, Bool, true, false, List, [], ◌∷◌, Option, none, some,
  arith, All,
}
use feed_core.Prelude.Int.{ℤ, pos, negsuc}
use feed_core.Support.Types.{Doubles, Info, Status, success}
use feed_core.Support.Ranges.{Fits32}
use feed_core.Support.Signals.{
  Signals, update_at, write_found, write_signal, lookup_signal, word_of, is_not_positive,
  is_negative, write_signal_offset, write_signal_step, write_signal_slope, write_signal_size,
}

abbrev pub AllForward : {D : Type 0} → List (Info D) → Type 0
AllForward = All (λ info. 0 < info.options.step)

update_at-AllForward :
    {D : Type 0} (f : Info D → Info D) (i : ℕ) (infos : List (Info D))
    → ((info : Info D) → 0 < info.options.step → 0 < (f info).options.step)
    → AllForward infos
    → AllForward (update_at f i infos)
unfolding update_at
update_at-AllForward f i [] h a = tt
update_at-AllForward f zero (x ∷ xs) h a = (h x a.0, a.1)
update_at-AllForward f (suc i) (x ∷ xs) h a = (a.0, update_at-AllForward f i xs h a.1)

-- All steps stay positive, and the value is taken or nothing changes.
pub record Effect {D : Type 0} (s : Signals D) (r : Status × Signals D) : Type 0 where
  pub forward : AllForward r.1.infos
  pub taken : (r.0 ≡ success) ⊎ (r.1.infos ≡ s.infos)

write_found-Effect :
    {D : Type 0} (bad : Bool) (change : Info D → Info D) (s : Signals D) (o : Option ℕ)
    → (bad ≡ false → (info : Info D) → 0 < info.options.step → 0 < (change info).options.step)
    → AllForward s.infos
    → Effect s (write_found bad change s o)
unfolding write_found
write_found-Effect bad change s none h a = record { forward = a; taken = inr refl }
write_found-Effect true change s (some i) h a = record { forward = a; taken = inr refl }
write_found-Effect false change s (some i) h a = record {
  forward = update_at-AllForward change i s.infos (h refl) a;
  taken = inl refl;
}

write_signal-Effect :
    {D : Type 0} (bad : Bool) (change : Info D → Info D) (s : Signals D)
    → (bad ≡ false → (info : Info D) → 0 < info.options.step → 0 < (change info).options.step)
    → AllForward s.infos
    → Effect s (write_signal bad change s)
unfolding write_signal
write_signal-Effect bad change s h a =
    let sig = lookup_signal s.registry s.sig in
    let e = write_found-Effect bad change (record s { sig = sig }) sig.siginfo h a in
    record { forward = e.forward; taken = e.taken }

positive_word : (val : ℤ) → Fits32 val → is_not_positive val ≡ false → 0 < word_of val
positive_word (pos n) f h = ground arith
positive_word (negsuc n) f h = ground arith

-- Each of the four writes, of an epicsInt32 or of a double, keeps the step of every record positive if
-- all were, and either returns 0 or leaves the options of all records as they were.
pub writes-Effect :
    ⦃F : Doubles⦄ (val : ℤ) (slope : F.Double) (s : Signals F.Double)
    → Fits32 val
    → AllForward s.infos
    → Effect s (write_signal_offset val s)
      × Effect s (write_signal_step val s)
      × Effect s (write_signal_slope slope s)
      × Effect s (write_signal_size val s)
unfolding write_signal_offset write_signal_step write_signal_slope write_signal_size
writes-Effect ⦃F⦄ val slope s f a = (
  write_signal-Effect (is_negative val) _ s (λ e info h. h) a,
  write_signal-Effect (is_not_positive val) _ s (λ e info h. positive_word val f e) a,
  write_signal-Effect (F.le_zero slope) _ s (λ e info h. h) a,
  write_signal-Effect (is_not_positive val) _ s (λ e info h. h) a,
)
