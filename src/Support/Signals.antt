-- ===== src/Support/Signals.antt =====
-- src/driver/devsignal.cpp: records that change the options of another record, which they find by the
-- name of its signal. Infos are the RecInfo of all records, and a pointer to one is its index.
pub mod Forward
use feed_core.Prelude.{
  ℕ, zero, suc, ◌+◌, ◌-◌, ◌^◌, ◌%◌, Bool, true, false, not, ◌||◌, List, [], ◌∷◌, Option, none, some,
  if◌then◌else◌, Bytes, codes, ltb,
}
use feed_core.Prelude.Int.{ℤ, pos, ltb_ℤ, to_unsigned}
use feed_core.Prelude.Exn.{Exn, runtime_error, Result, ok, err, ◌>>=◌}
use feed_core.Prelude.Maps.{lookup, bytes_key}
use feed_core.Device.Types.{comm_alarm, write_alarm, invalid_severity}
use feed_core.Options.{Pairs, split_pairs}
use feed_core.Support.Types.{
  Doubles, Prec, Info, Status, success, do_not_convert, enodev, einval, eio, raise,
}

-- SigInfo
pub record SigInfo : Type 0 where
  pub signame : Bytes
  pub siginfo : Option ℕ
  pub warned : Bool

-- A signal record, RecInfo::signals, and the options that it changes.
pub record Signals (D : Type 0) : Type 0 where
  pub sig : SigInfo
  pub registry : List (Bytes × ℕ)
  pub infos : List (Info D)
  pub prec : Prec

abbrev omitted : Exn
omitted = runtime_error "Omitted required key signal=" []

unfoldable pub required : Option Bytes → Result SigInfo
required none = err omitted
required (some name) = ok (record { signame = name; siginfo = none; warned = false })

unfoldable pub initialised : Result SigInfo → Status × Option SigInfo
initialised (ok sig) = (success, some sig)
initialised (err e) = (eio, none)

-- init_signal, on the text of the record's link.
unfoldable pub init_signal : Bytes → Status × Option SigInfo
init_signal text =
    initialised (split_pairs text [] >>= λ pairs. required (lookup (codes "signal") pairs))

abbrev pub as_raw : Status → Status
as_raw success = do_not_convert
as_raw s = s

unfoldable pub init_signal2 : Bytes → Status × Option SigInfo
init_signal2 text = let r = init_signal text in (as_raw r.0, r.1)

-- A change of one element.
unfoldable pub update_at {ℓ} : {A : Type ℓ} → (A → A) → ℕ → List A → List A
update_at f i [] = []
update_at f zero (x ∷ xs) = f x ∷ xs
update_at f (suc i) (x ∷ xs) = x ∷ update_at f i xs

-- SigInfo::lookup, with the pointer that it finds.
unfoldable pub find_signal : List (Bytes × ℕ) → SigInfo → Option ℕ → SigInfo
find_signal registry sig none = record sig { warned = true }
find_signal registry sig (some i) = record sig { siginfo = some i }

unfoldable pub resolve : List (Bytes × ℕ) → SigInfo → Option ℕ → SigInfo
resolve registry sig none = find_signal registry sig (lookup sig.signame registry)
resolve registry sig (some i) = sig

unfoldable pub lookup_signal : List (Bytes × ℕ) → SigInfo → SigInfo
lookup_signal registry sig = resolve registry sig sig.siginfo

module _ {D : Type 0} where
  -- TRY, the guard that is the same in the four writes, and the assignment.
  unfoldable pub write_found : Bool → (Info D → Info D) → Signals D → Option ℕ → Status × Signals D
  write_found bad change s none =
      (enodev, record s { prec = raise comm_alarm invalid_severity s.prec })
  write_found bad change s (some i) =
      if bad
      then (einval, record s { prec = raise write_alarm invalid_severity s.prec })
      else (success, record s { infos = update_at change i s.infos })

  unfoldable pub write_signal : Bool → (Info D → Info D) → Signals D → Status × Signals D
  write_signal bad change s =
      let sig = lookup_signal s.registry s.sig in
      write_found bad change (record s { sig = sig }) sig.siginfo

-- epicsUInt32 of an epicsInt32
abbrev pub word_of : ℤ → ℕ
word_of = to_unsigned (2 ^ 32)

abbrev pub is_negative : ℤ → Bool
is_negative z = ltb_ℤ z (pos 0)

abbrev pub is_not_positive : ℤ → Bool
is_not_positive z = ltb_ℤ z (pos 1)

unfoldable pub write_signal_offset : {D : Type 0} → ℤ → Signals D → Status × Signals D
write_signal_offset val =
    write_signal (is_negative val)
      (λ info. record info { options = record info.options { offset = word_of val } })

unfoldable pub write_signal_step : {D : Type 0} → ℤ → Signals D → Status × Signals D
write_signal_step val =
    write_signal (is_not_positive val)
      (λ info. record info { options = record info.options { step = word_of val } })

unfoldable pub write_signal_slope :
    ⦃F : Doubles⦄ → F.Double → Signals F.Double → Status × Signals F.Double
write_signal_slope ⦃F⦄ val =
    write_signal (F.le_zero val)
      (λ info. record info { options = record info.options { scale = val } })

unfoldable pub write_signal_size : {D : Type 0} → ℤ → Signals D → Status × Signals D
write_signal_size val =
    write_signal (is_not_positive val) (λ info. record info { size = word_of val })
