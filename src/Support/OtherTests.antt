-- ===== src/Support/OtherTests.antt =====
-- The theorems on watches, sync records, signals and texts at a device with one register.
use feed_core.Prelude.{
  ℕ, ◌+◌, ◌<◌, ◌≡◌, ◌≢◌, refl, true, false, [], ◌∷◌, none, some, arith, replicate, codes, Bytes,
  subst,
}
use feed_core.Prelude.Exn.{ok}
use feed_core.Prelude.Maps.{some_injective}
use feed_core.Prelude.Int.{negsuc}
use feed_core.Prelude.Bits.{land}
use feed_core.Device.Types.{writing, reg_at}
use feed_core.Support.Types.{char}
use feed_core.Support.Watch.{Watch, complete, expire, process}
use feed_core.Support.Watch.Tended.{IsTended, IsStranded, Step, watch-IsTended}
use feed_core.Support.Watch.Ends.{complete-ends}
use feed_core.Support.Sync.{Sync, read_sync}
use feed_core.Support.Sync.Completions.{completes}
use feed_core.Support.Sync.Finish.{Finished, read_sync-finishes}
use feed_core.Support.Signals.{
  Signals, write_signal_offset, write_signal_step, write_signal_slope, write_signal_size,
}
use feed_core.Support.Signals.Forward.{Effect, writes-Effect}
use feed_core.Support.Status.{read_jsoninfo, read_error, read_jblob}
use feed_core.Support.Status.Bounds.{IsWithin, reads-IsWithin}
use feed_core.JBlob.{JRegister}
use feed_core.Prelude.{map, List, ◌===◌, ===-eq, sym, ◌∙◌, if◌then◌else◌, Bool-cases, inl, inr}
use feed_core.Prelude.Maps.{lookup, insert, bytes_key, bytes_lt, lookup-insert}
use feed_core.Device.Inspect.{add_registers}
use feed_core.Options.{split_pairs, split_loop, after_key, read_value, token, skip_blanks}
use feed_core.Support.Attach.{
  Attached, init_common_base, read_link, with_link, with_name, found_device, placed_or_failed,
  place, add_interest, attach_at, claim_signal, claim_free,
}
use feed_core.Support.Attach.Interests.{IsLinked, AllLinked}
use feed_core.Support.Attach.Registers.{interests-AllLinked}
use feed_core.Support.Types.{success}
use feed_core.Support.Fixtures.{whole, wave, wave_device, wave_info, idle_prec, even_words}

-- A watch for the value 2 of the second word.
abbrev small_watch : Watch ℕ
small_watch = record {
  wait = record {
    base = record even_words { options = record even_words.options { offset = 1 } };
    mask = 0xff;
    value = 2;
    retry = 1;
    cb_inprogress = false;
  };
  prec = record idle_prec { pact = true };
  device = wave_device;
  timer = none;
}

small_watch_registered : (p : ℕ) → some 0 ≡ some p → p < 1
small_watch_registered p e = subst (λ q. q < 1) (some_injective e) (omega arith)

watch-IsTended_example :
    let w' = complete process small_watch in
    (Step small_watch w' → IsTended w')
    × (small_watch.wait.base.reg ≡ none
        → small_watch.prec.pact ≡ true
        → IsStranded small_watch (expire small_watch))
watch-IsTended_example =
    watch-IsTended small_watch (complete process small_watch) small_watch_registered

complete-ends_example :
    let val : ℕ = land 32 2 0xff in
    (val ≡ 2 → (complete process small_watch).prec.pact ≡ false)
    × (val ≢ 2
        → ((complete process small_watch).prec ≡ small_watch.prec)
          × ((complete process small_watch).timer ≡ some 1))
unfolding reg_at land
complete-ends_example = complete-ends small_watch 0 refl refl

-- A sync record for one register.
abbrev small_sync : Sync
small_sync = record {
  self = 9;
  wait_for = 0;
  val = 5;
  prec = idle_prec;
  device = record wave_device { reg_send = 0 ∷ []; regs = record wave { state = writing } ∷ [] };
}

read_sync-finishes_example :
    (s1 : Sync) × (s2 : Sync) × (s3 : Sync) × (read_sync small_sync ≡ ok s1)
    × (s1.prec.pact ≡ true)
    × (completes read_sync 0 s1 ≡ ok s2)
    × (s2.prec.pact ≡ true)
    × (s2.wait_for + 0 ≡ 1)
    × (completes read_sync 1 s1 ≡ ok s3)
    × Finished small_sync s3
unfolding reg_at
read_sync-finishes_example =
    read_sync-finishes small_sync 0 [] 0 refl refl refl ((omega arith, refl), tt) (omega arith)

-- A signal record for even_words.
abbrev small_signals : Signals ℕ
small_signals = record {
  sig = record { signame = codes "wave"; siginfo = none; warned = false };
  registry = (codes "wave", 0) ∷ [];
  infos = even_words ∷ [];
  prec = idle_prec;
}

signals_kept :
    Effect small_signals (write_signal_offset (negsuc 3) small_signals)
    × Effect small_signals (write_signal_step (negsuc 3) small_signals)
    × Effect small_signals (write_signal_slope 2 small_signals)
    × Effect small_signals (write_signal_size (negsuc 3) small_signals)
signals_kept = writes-Effect (negsuc 3) 2 small_signals (omega arith) (omega arith, tt)

texts-IsWithin :
    let buffer : Bytes = replicate 4 1 in
    IsWithin buffer 0 (read_jsoninfo char 0 idle_prec buffer 0 wave_device)
    × IsWithin buffer 0 (read_error (codes "late") idle_prec buffer 0 wave_device)
    × IsWithin buffer 0 (read_jblob 0 idle_prec buffer 0 wave_device)
texts-IsWithin = reads-IsWithin char 0 (codes "late") idle_prec (replicate 4 1) 0 wave_device

none-ne-some : {p : ℕ} → none ≡ some p → ⊥
none-ne-some e = cc

wave_named : (k : Bytes) → codes "wave" ≡ k → IsLinked wave_device k 0
unfolding reg_at
wave_named k e =
    subst (λ z. IsLinked wave_device z 0) e
      (record { there = omega arith; named = refl; attached = tt })

wave_lookup :
    (k : Bytes) → lookup k wave_device.reg_by_name ≡ (if codes "wave" === k then some 0 else none)
unfolding insert lookup
wave_lookup k = lookup-insert (codes "wave") k 0 []

wave_linked : AllLinked wave_device
wave_linked k p h =
    let found = sym (wave_lookup k) ∙ h in
    elim (Bool-cases (codes "wave" === k)) [
      | inl e ↦
          let at = some_injective (subst (λ b. (if b then some 0 else none) ≡ some p) e found) in
          subst (λ q. IsLinked wave_device k q) at (wave_named k (===-eq (codes "wave") k e))
      | inr e ↦ absurd (none-ne-some (subst (λ b. (if b then some 0 else none) ≡ some p) e found))
    ]

interests-AllLinked_example :
    let table : List (Bytes × JRegister) =
      (codes "other", record wave_info { name = codes "other" }) ∷ [] in
    AllLinked (add_interest wave_device (some (codes "wave"))).1
    × AllLinked (add_registers table wave_device)
interests-AllLinked_example =
    interests-AllLinked wave_device (some (codes "wave"))
      ((codes "other", record wave_info { name = codes "other" }) ∷ []) wave_linked

-- A record for the register wave, which is no bootstrap register, with a signal.
abbrev attached_record : Attached ℕ
attached_record =
    init_common_base wave_device even_words.options (λ pairs options. ok options)
      (codes "name=dev reg=wave signal=w") (record { devices = []; placed = []; signals = [] })

attached_run :
    (attached_record.status ≡ success)
    × (attached_record.dpvt ≡ some 0)
    × (attached_record.database.signals ≡ (codes "w", 0) ∷ [])
    × (map (λ x. x.info.reg) attached_record.database.placed ≡ none ∷ [])
unfolding init_common_base read_link with_link with_name found_device placed_or_failed place
    add_interest attach_at claim_signal claim_free split_pairs split_loop after_key read_value token
    skip_blanks lookup insert reg_at ◌===◌ bytes_lt
attached_run = (refl, refl, refl, refl)
