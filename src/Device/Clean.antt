-- ===== src/Device/Clean.antt =====
-- What Device::reset leaves: its registers, its messages and the records that waited.
use feed_core.Prelude.{
  ℕ, ◌<◌, ◌≡◌, ◌≢◌, refl, sym, ap, ◌∙◌, Bool, true, false, List, [], ◌∷◌, ◌++◌, Bytes, arith,
  length, get_or, length-replicate, replicate, In, In-append_left, In-append_right, ◌⊎◌, inl, inr,
  subst, ◌==◌, Bool-cases, ==_iff,
}
use feed_core.Device.Types.{
  invalid, DevReg, Device, comm_alarm, invalid_severity, reg_at, set_reg, no_reg,
}
use feed_core.Device.Register.{process}
use feed_core.Device.Store.{reg_at-set_reg_self, reg_at-set_reg_ne, length-set_reg}
use feed_core.Device.Waiting.{waiting}
use feed_core.Device.Reset.{reset, disconnect, disconnect_all, reset_reg, zeroed}

-- A register that is disconnected: nothing waits on it and nothing is queued.
pub record IsDisconnected (r : DevReg) : Type 0 where
  pub is_invalid : r.state ≡ invalid
  pub no_read : r.read_queued ≡ false
  pub no_write : r.write_queued ≡ false
  pub no_waiting : waiting r ≡ []
  pub alarm : (r.stat ≡ comm_alarm) × (r.sevr ≡ invalid_severity)
  pub zeros :
      (r.mem_rx ≡ replicate (length r.mem_rx) 0) × (r.mem_tx ≡ replicate (length r.mem_tx) 0)

-- A register without waiting records.
unfoldable pub released : DevReg → DevReg
released r = record r { records_inprog = []; records_write = []; records_read = [] }

process_at :
    (p : ℕ) (d : Device) → p < length d.regs → reg_at (process p true d) p ≡ released (reg_at d p)
unfolding process released
process_at p d h = reg_at-set_reg_self (record d { records = _ }) p _ h

process_ne : (p q : ℕ) (d : Device) → p ≢ q → reg_at (process p true d) q ≡ reg_at d q
unfolding process
process_ne p q d n = reg_at-set_reg_ne (record d { records = _ }) p q _ n ∙ (unfold reg_at in refl)

length-process : (p : ℕ) (d : Device) → length (process p true d).regs ≡ length d.regs
unfolding process
length-process p d = length-set_reg (record d { records = _ }) p _

length-disconnect : (p : ℕ) (d : Device) → length (disconnect p d).regs ≡ length d.regs
unfolding disconnect
length-disconnect p d =
    length-set_reg (process p true (set_reg d p (zeroed (reg_at d p)))) p _
    ∙ (length-process p (set_reg d p (zeroed (reg_at d p))) ∙ length-set_reg d p _)

disconnect_at :
    (p : ℕ) (d : Device)
    → p < length d.regs
    → reg_at (disconnect p d) p ≡ reset_reg (released (zeroed (reg_at d p)))
unfolding disconnect
disconnect_at p d h =
    let r = zeroed (reg_at d p) in
    let there = subst (λ n. p < n) (sym (length-set_reg d p r)) h in
    reg_at-set_reg_self (process p true (set_reg d p r)) p _
      (subst (λ n. p < n) (sym (length-process p (set_reg d p r))) there)
    ∙ ap reset_reg (process_at p (set_reg d p r) there ∙ ap released (reg_at-set_reg_self d p r h))

disconnect_ne : (p q : ℕ) (d : Device) → p ≢ q → reg_at (disconnect p d) q ≡ reg_at d q
unfolding disconnect
disconnect_ne p q d n =
    let d' = set_reg d p (zeroed (reg_at d p)) in
    reg_at-set_reg_ne (process p true d') p q _ n
    ∙ (process_ne p q d' n ∙ reg_at-set_reg_ne d p q _ n)

replicate_zeros : (n : ℕ) → replicate {A = ℕ} n 0 ≡ replicate (length (replicate {A = ℕ} n 0)) 0
replicate_zeros n = rw (length-replicate {A = ℕ} n 0) refl

reset_reg-IsDisconnected : (r : DevReg) → IsDisconnected (reset_reg (released (zeroed r)))
unfolding reset_reg released zeroed
reset_reg-IsDisconnected r = record {
  is_invalid = refl;
  no_read = refl;
  no_write = refl;
  no_waiting = refl;
  alarm = (refl, refl);
  zeros = (replicate_zeros (length r.mem_rx), replicate_zeros (length r.mem_tx));
}

-- A statement on the device as the registers of a table are disconnected one by one.
pub disconnect_all_keeps :
    (P : Device → Type 0)
    → ((p : ℕ) (d : Device) → P d → P (disconnect p d))
    → (m : List (Bytes × ℕ)) (d : Device) → P d
    → P (disconnect_all m d)
unfolding disconnect_all
disconnect_all_keeps P f [] d h = h
disconnect_all_keeps P f ((k, p) ∷ m) d h = disconnect_all_keeps P f m (disconnect p d) (f p d h)

-- The same for one, P, that holds from the turn of register q on, when I holds before.
disconnect_all_turn :
    (I P : Device → Type 0) (k : Bytes) (q : ℕ)
    → ((p : ℕ) (d : Device) → I d → I (disconnect p d))
    → ((p : ℕ) (d : Device) → P d → P (disconnect p d))
    → ((d : Device) → I d → P (disconnect q d))
    → (m : List (Bytes × ℕ)) (d : Device) → I d
    → In (k, q) m
    → P (disconnect_all m d)
unfolding disconnect_all
disconnect_all_turn I P k q i f g [] d l h = elim h [ ]
disconnect_all_turn I P k q i f g ((j, p) ∷ m) d l (inl e) =
    disconnect_all_keeps P f m (disconnect p d)
      (subst (λ t. P (disconnect t d)) (ap (λ t. t.1) e) (g d l))
disconnect_all_turn I P k q i f g ((j, p) ∷ m) d l (inr h) =
    disconnect_all_turn I P k q i f g m (disconnect p d) (i p d l) h

module _ (q : ℕ) where
  abbrev There : Device → Type 0
  There d = q < length d.regs

  disconnect-There : (p : ℕ) (d : Device) → There d → There (disconnect p d)
  disconnect-There p d h = subst (λ t. q < t) (sym (length-disconnect p d)) h

  disconnect_self_IsDisconnected :
      (d : Device) → There d → IsDisconnected (reg_at (disconnect q d) q)
  disconnect_self_IsDisconnected d h =
      subst IsDisconnected (sym (disconnect_at q d h)) (reset_reg-IsDisconnected (reg_at d q))

  -- Register q after its turn.
  abbrev Turned : Device → Type 0
  Turned d = There d × IsDisconnected (reg_at d q)

  disconnect_self_Turned : (d : Device) → There d → Turned (disconnect q d)
  disconnect_self_Turned d h = (disconnect-There q d h, disconnect_self_IsDisconnected d h)

  disconnect-Turned : (p : ℕ) (d : Device) → Turned d → Turned (disconnect p d)
  disconnect-Turned p d h = elim (Bool-cases (p == q)) [
    | inl e ↦
        subst (λ t. Turned (disconnect t d)) (sym ((==_iff p q).0 e)) (disconnect_self_Turned d h.0)
    | inr e ↦ (
      disconnect-There p d h.0,
      subst IsDisconnected (sym (disconnect_ne p q d (λ s. ground arith))) h.1,
    )
  ]

reg_at_regs : (q : ℕ) (d d' : Device) → d.regs ≡ d'.regs → reg_at d q ≡ reg_at d' q
unfolding reg_at
reg_at_regs q d d' e = ap (λ t. get_or t q no_reg) e

-- Each register that is there and in the table that reset finds is disconnected afterwards:
-- invalid, with nothing queued, no record waiting, its memory zero and its alarm set.
pub reset-IsDisconnected :
    (failed : Bool) (d : Device) (k : Bytes) (q : ℕ)
    → q < length d.regs
    → In (k, q) d.reg_by_name
    → IsDisconnected (reg_at (reset failed d) q)
unfolding reset
reset-IsDisconnected failed d k q there h =
    subst IsDisconnected (reg_at_regs q (disconnect_all d.reg_by_name _) (reset failed d) refl)
      (disconnect_all_turn (There q) (Turned q) k q (disconnect-There q) (disconnect-Turned q)
        (disconnect_self_Turned q) d.reg_by_name _ there h).1

disconnect-records :
    (p : ℕ) (d : Device)
    → p < length d.regs
    → (disconnect p d).records ≡ d.records ++ waiting (reg_at d p)
unfolding disconnect process zeroed set_reg
disconnect-records p d h =
    ap (λ r. d.records ++ (r.records_inprog ++ (r.records_write ++ r.records_read)))
      (reg_at-set_reg_self d p (zeroed (reg_at d p)) h)

module _ (q x : ℕ) where
  -- Record x is to be completed.
  abbrev Completed : Device → Type 0
  Completed d = In x d.records

  -- Record x is to be completed, or waits on register q, which is there.
  abbrev Pending : Device → Type 0
  Pending d = (q < length d.regs) × (Completed d ⊎ In x (waiting (reg_at d q)))

  disconnect-Completed : (p : ℕ) (d : Device) → Completed d → Completed (disconnect p d)
  unfolding disconnect process set_reg
  disconnect-Completed p d h = In-append_left x d.records _ h

  disconnect_self_Completed : (d : Device) → Pending d → Completed (disconnect q d)
  disconnect_self_Completed d (there, inl h) = disconnect-Completed q d h
  disconnect_self_Completed d (there, inr h) =
      subst (In x) (sym (disconnect-records q d there)) (In-append_right x d.records _ h)

  disconnect-Pending : (p : ℕ) (d : Device) → Pending d → Pending (disconnect p d)
  disconnect-Pending p d (there, inl h) =
      (disconnect-There q p d there, inl (disconnect-Completed p d h))
  disconnect-Pending p d (there, inr h) = elim (Bool-cases (p == q)) [
    | inl e ↦ (
      disconnect-There q p d there,
      inl (
          subst (λ t. Completed (disconnect t d)) (sym ((==_iff p q).0 e))
            (disconnect_self_Completed d (there, inr h))),
    )
    | inr e ↦ (
      disconnect-There q p d there,
      inr (subst (λ r. In x (waiting r)) (sym (disconnect_ne p q d (λ s. ground arith))) h),
    )
  ]

  Pending-regs :
      (d d' : Device) → d.regs ≡ d'.regs → d.records ≡ d'.records → Pending d → Pending d'
  Pending-regs d d' e f (there, inl h) = (subst (λ t. q < length t) e there, inl (subst (In x) f h))
  Pending-regs d d' e f (there, inr h) = (
    subst (λ t. q < length t) e there,
    inr (subst (λ r. In x (waiting r)) (reg_at_regs q d d' e) h),
  )

-- A reset loses no record: one that waits on a register that is there and in the table, for the
-- operation in progress or for a queued one, is among those that are completed next, and so is
-- one that was before.
pub reset-completes :
    (failed : Bool) (d : Device) (k : Bytes) (q x : ℕ)
    → q < length d.regs
    → In (k, q) d.reg_by_name
    → In x d.records ⊎ In x (waiting (reg_at d q))
    → In x (reset failed d).records
unfolding reset
reset-completes failed d k q x there h w =
    disconnect_all_turn (Pending q x) (Completed q x) k q (disconnect-Pending q x)
      (disconnect-Completed q x) (disconnect_self_Completed q x) d.reg_by_name _
      (Pending-regs q x d _ refl refl (there, w)) h
