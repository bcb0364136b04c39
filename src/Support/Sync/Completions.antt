-- ===== src/Support/Sync/Completions.antt =====
-- Several completions of a sync record, one after the other.
use feed_core.Prelude.{ℕ, zero, suc, ◌-◌, ◌+◌, ◌≡◌, refl, ap, false, ◌==◌, arith}
use feed_core.Prelude.Exn.{Result, ok, ◌>>=◌}
use feed_core.Support.Sync.{Sync, complete_record, complete}

-- k completions, one after the other.
unfoldable pub completes : (Sync → Result Sync) → ℕ → Sync → Result Sync
completes process zero s = ok s
completes process (suc k) s = completes process k s >>= complete process

module _ (process : Sync → Result Sync) (s : Sync) where
  -- The record with n registers to wait for.
  abbrev with_wait : ℕ → Sync
  with_wait n = record s { wait_for = n }

  complete_more : (n : ℕ) → complete process (with_wait (suc (suc n))) ≡ ok (with_wait (suc n))
  unfolding complete
  complete_more n =
      let w = suc (suc n) in
      let less : w - 1 ≡ suc n = omega arith in
      let nonzero : (w == 0) ≡ false = ground arith in
      let more : (suc n == 0) ≡ false = ground arith in rw (nonzero, less, more) refl

  complete_last : complete process (with_wait 1) ≡ complete_record process (with_wait 0)
  unfolding complete
  complete_last = refl

  -- k completions, when more than k are waited for.
  pub completes_some :
      (k n : ℕ) → completes process k (with_wait (suc n + k)) ≡ ok (with_wait (suc n))
  unfolding completes
  completes_some zero n = ap (λ w. ok (with_wait w)) (omega arith)
  completes_some (suc k) n =
      let e : suc n + suc k ≡ suc (suc n) + k = omega arith in
      rw (e, completes_some k (suc n)) (complete_more n)

  pub completes_all :
      (n : ℕ)
      → completes process (suc n) (with_wait (suc n)) ≡ complete_record process (with_wait 0)
  unfolding completes
  completes_all n =
      let e : suc n ≡ 1 + n = omega arith in rw e (rw (completes_some n 0) complete_last)
