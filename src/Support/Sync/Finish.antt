-- ===== src/Support/Sync/Finish.antt =====
-- A sync record of src/driver/devmain.cpp from its start to its last completion.
use feed_core.Prelude.{
  ℕ, suc, ◌-◌, ◌+◌, ◌<◌, ◌≡◌, refl, sym, ap, ◌∙◌, subst, Bool, true, false, not, ◌&&◌, ◌||◌, List,
  [], ◌∷◌, ◌==◌, All, length, arith, Bool-cases, inl, inr, ==_iff, if-true, if-false, true-ne-false,
}
use feed_core.Prelude.Exn.{ok}
use feed_core.Prelude.Words.{add32}
use feed_core.Device.Types.{Device, inprogress, active, running, reg_at, set_reg}
use feed_core.Device.Store.{reg_at-set_reg_self, reg_at-set_reg_ne, length-set_reg}
use feed_core.Support.Types.{Prec}
use feed_core.Support.Sync.Completions.{completes, completes_some, completes_all}
use feed_core.Support.Sync.{
  Sync, is_running, join_reg, join_all, finish_sync, read_sync, complete_record,
}

-- Each register that the send queue names exists and has an operation in progress.
abbrev pub AllSending : Device → List ℕ → Type 0
AllSending d = All (λ p. (p < length d.regs) × (inprogress (reg_at d p).state ≡ true))

state_kept :
    (d : Device) (p q : ℕ) (xs : List ℕ)
    → p < length d.regs
    → (reg_at (set_reg d p (record (reg_at d p) { records_inprog = xs })) q).state
      ≡ (reg_at d q).state
state_kept d p q xs valid =
    let r = record (reg_at d p) { records_inprog = xs } in
    elim (Bool-cases (p == q)) [
      | inl e ↦
          subst (λ z. (reg_at (set_reg d p r) z).state ≡ (reg_at d z).state) ((==_iff p q).0 e)
            (ap (λ s. s.state) (reg_at-set_reg_self d p r valid))
      | inr e ↦
          ap (λ s. s.state) (reg_at-set_reg_ne d p q r (λ n. true-ne-false ((==_iff p q).1 n) e))
    ]

join_reg-AllSending :
    (p : ℕ) (s : Sync) (ps : List ℕ)
    → p < length s.device.regs
    → AllSending s.device ps
    → AllSending (join_reg p s).device ps
unfolding join_reg
join_reg-AllSending p s [] valid h = tt
join_reg-AllSending p s (q ∷ qs) valid h = (
  (rw (length-set_reg s.device p _) h.0.0, rw (state_kept s.device p q _ valid) h.0.1),
  join_reg-AllSending p s qs valid h.1,
)

-- The record after the loop over the registers ps.
pub record Joined (ps : List ℕ) (s s' : Sync) : Type 0 where
  pub counted : s'.wait_for ≡ s.wait_for + length ps
  pub same_val : s'.val ≡ s.val
  pub is_active : (s'.prec.pact ≡ true)
  pub same_current : s'.device.current ≡ s.device.current
  pub same_alarms : s'.prec.alarms ≡ s.prec.alarms

join_reg-Joined :
    (p : ℕ) (ps : List ℕ) (s s' : Sync) → Joined ps (join_reg p s) s' → Joined (p ∷ ps) s s'
unfolding join_reg set_reg
join_reg-Joined p ps s s' j = record {
  counted = omega (arith, j.counted);
  same_val = j.same_val;
  is_active = j.is_active;
  same_current = j.same_current;
  same_alarms = j.same_alarms;
}

join_reg-is_active : (p : ℕ) (s : Sync) → (join_reg p s).prec.pact ≡ true
unfolding join_reg
join_reg-is_active p s = refl

join_all-Joined :
    (ps : List ℕ) (s : Sync)
    → AllSending s.device ps
    → s.prec.pact ≡ true
    → (s' : Sync) × (join_all ps s ≡ ok s') × Joined ps s s'
unfolding join_all
join_all-Joined [] s h pact = (
  s,
  refl,
  record {
    counted = omega arith;
    same_val = refl;
    is_active = pact;
    same_current = refl;
    same_alarms = refl;
  },
)
join_all-Joined (p ∷ ps) s h pact =
    let (s', e, j) =
      join_all-Joined ps (join_reg p s) (join_reg-AllSending p s ps h.0.0 h.1)
        (join_reg-is_active p s) in
    (
      s',
      if-true (λ r. r ≡ ok s') (inprogress (reg_at s.device p).state) _ _ h.0.1 e,
      join_reg-Joined p ps s s' j,
    )

-- The first round makes the record active.
join_some-Joined :
    (p : ℕ) (ps : List ℕ) (s : Sync)
    → AllSending s.device (p ∷ ps)
    → (s' : Sync) × (join_all (p ∷ ps) s ≡ ok s') × Joined (p ∷ ps) s s'
unfolding join_all
join_some-Joined p ps s h =
    let (s', e, j) =
      join_all-Joined ps (join_reg p s) (join_reg-AllSending p s ps h.0.0 h.1)
        (join_reg-is_active p s) in
    (
      s',
      if-true (λ r. r ≡ ok s') (inprogress (reg_at s.device p).state) _ _ h.0.1 e,
      join_reg-Joined p ps s s' j,
    )

-- The record at its last completion.
pub record Finished (s s' : Sync) : Type 0 where
  pub ended : s'.prec.pact ≡ false
  pub stepped : s'.val ≡ add32 s.val 1
  pub no_alarm_more : s'.prec.alarms ≡ s.prec.alarms

inactive_guard : (p a : Bool) → p ≡ true → (not p && a) ≡ false
inactive_guard true a h = refl
inactive_guard false a h = cc

processed_active :
    (s : Sync) → s.prec.pact ≡ true → complete_record read_sync s ≡ ok (finish_sync s)
unfolding complete_record read_sync
processed_active s pact =
    if-true (λ r. r ≡ ok (finish_sync s)) s.prec.pact _ _ pact
      (if-false (λ r. r ≡ ok (finish_sync s)) (not s.prec.pact && active s.device.current) _ _
        (inactive_guard s.prec.pact _ pact) refl)

finish-Finished :
    (s s' : Sync)
    → s'.val ≡ s.val
    → s'.prec.alarms ≡ s.prec.alarms
    → s'.device.current ≡ running
    → s'.wait_for ≡ 0
    → Finished s (finish_sync s')
unfolding finish_sync
finish-Finished s s' val alarms run none_left = record {
  ended = refl;
  stepped = ap (λ v. add32 v 1) val;
  no_alarm_more =
      if-false {A = Prec} (λ c. c.alarms ≡ s.prec.alarms)
        (not (is_running s'.device.current) || not (s'.wait_for == 0)) _ _
        (rw (run, none_left) refl) alarms;
}

waits_for : (s : Sync) (n : ℕ) → s.wait_for ≡ n → record s { wait_for = n } ≡ s
waits_for s n e = ap (λ w. record s { wait_for = w }) (sym e)

start_guard : (p a : Bool) → p ≡ false → a ≡ true → (not p && a) ≡ true
start_guard false true h e = refl
start_guard false false h e = cc
start_guard true a h e = cc

joins :
    (s : Sync) (p : ℕ) (ps : List ℕ) (s1 : Sync)
    → s.prec.pact ≡ false
    → active s.device.current ≡ true
    → s.device.reg_send ≡ p ∷ ps
    → join_all (p ∷ ps) (record s { wait_for = 0 }) ≡ ok s1
    → read_sync s ≡ ok s1
unfolding read_sync
joins s p ps s1 idle live queue e =
    if-true (λ r. r ≡ ok s1) (not s.prec.pact && active s.device.current) _ _
      (start_guard s.prec.pact (active s.device.current) idle live)
      (ap (λ q. join_all q (record s { wait_for = 0 })) queue ∙ e)

-- A sync record that is processed while the device is Running, and while each register of the send queue,
-- which is not empty, exists and has an operation in progress, becomes active. Fewer completions than
-- the queue is long leave it active, waiting for the rest; with the last one it is processed, and then it
-- is not active, its value is one higher and no alarm has been raised.
pub read_sync-finishes :
    (s : Sync) (p : ℕ) (ps : List ℕ) (k : ℕ)
    → s.prec.pact ≡ false
    → s.device.current ≡ running
    → s.device.reg_send ≡ p ∷ ps
    → AllSending s.device (p ∷ ps)
    → k < length (p ∷ ps)
    → (s1 : Sync) × (s2 : Sync) × (s3 : Sync) × (read_sync s ≡ ok s1)
      × (s1.prec.pact ≡ true)
      × (completes read_sync k s1 ≡ ok s2)
      × (s2.prec.pact ≡ true)
      × (s2.wait_for + k ≡ length (p ∷ ps))
      × (completes read_sync (length (p ∷ ps)) s1 ≡ ok s3)
      × Finished s s3
read_sync-finishes s p ps k idle run queue h below =
    let (s1, e, j) = join_some-Joined p ps (record s { wait_for = 0 }) h in
    let left : ℕ = length ps - k in
    let s0 = record s1 { wait_for = 0 } in
    (
      s1,
      record s1 { wait_for = suc left },
      finish_sync s0,
      joins s p ps s1 idle (ap active run) queue e,
      j.is_active,
      ap (completes read_sync k) (sym (waits_for s1 (suc left + k) (j.counted ∙ omega arith)))
          ∙ completes_some read_sync s1 k left,
      j.is_active,
      omega arith,
      ap (completes read_sync (suc (length ps)))
            (sym (waits_for s1 (suc (length ps)) (j.counted ∙ omega arith)))
          ∙ (completes_all read_sync s1 (length ps) ∙ processed_active s0 j.is_active),
      finish-Finished s s0 j.same_val j.same_alarms (j.same_current ∙ run) refl,
    )
