-- ===== src/Support/Tests.antt =====
-- The theorems on register access at a register of four words.
use feed_core.Prelude.{
  ℕ, ◌+◌, ◌*◌, ◌<◌, ◌≤◌, ◌≡◌, ◌↔◌, inr, refl, true, false, List, [], ◌∷◌, some, arith, get_elem?,
}
use feed_core.Prelude.Int.{pos, negsuc, signed32}
use feed_core.JBlob.{reg_min, reg_max, signed, unsigned}
use feed_core.Device.Types.{Device, reg_at}
use feed_core.Support.Types.{ushort, long, enodev, Info}
use feed_core.Support.Write.{write_register_common}
use feed_core.Support.Read.{read_register_common, read_register_li, signmask}
use feed_core.Support.Connect.{persist_settings, post_limits, maybe_post, Limits}
use feed_core.Support.Bounds.{Confined, write_register_common-Confined}
use feed_core.Support.Refusals.{Refused, Inaccessible, write_register_common-Refused}
use feed_core.Support.ReadBack.{reader, write-read_back}
use feed_core.Support.Copied.{element, read_register_common-element}
use feed_core.Support.Extension.{read_register_li-value, signed_of}
use feed_core.Support.Awaited.{Awaited, access-Awaited}
use feed_core.Support.Persisted.{IsQuiet, writing_hooks, persist_settings-IsQuiet}
use feed_core.Support.Ranges.{post_limits-range}
use feed_core.Support.Fixtures.{whole, wave_info, wave, wave_device, idle_prec, even_words}

write_register_common-Confined_example :
    Confined 0 2 0 2 wave_device
      (write_register_common ushort (11 ∷ 12 ∷ []) (some even_words) idle_prec wave_device).device
write_register_common-Confined_example =
    write_register_common-Confined ushort (11 ∷ 12 ∷ []) even_words idle_prec wave_device 0
      (omega arith) refl

-- One word too many.
write_register_common-Refused_example :
    let xs : List ℕ = 1 ∷ 2 ∷ 3 ∷ 4 ∷ 5 ∷ [] in
    let c = write_register_common ushort xs (some even_words) idle_prec wave_device in
    ((c.status ≡ enodev) ↔ Inaccessible (some 0) even_words 5 wave_device)
    × (c.status ≡ enodev → Refused idle_prec wave_device c)
write_register_common-Refused_example =
    write_register_common-Refused ushort (1 ∷ 2 ∷ 3 ∷ 4 ∷ 5 ∷ []) even_words idle_prec wave_device
      refl

abbrev written_device : Device
written_device =
    (write_register_common ushort (11 ∷ 12 ∷ []) (some even_words) idle_prec wave_device).device

write-read_back_example :
    (read_register_common ushort true
      (0 ∷ 0 ∷ [])
      (some (reader even_words false 8))
      idle_prec
      written_device).values
    ≡ 11 ∷ 12 ∷ []
unfolding reg_at
write-read_back_example =
    write-read_back ushort (11 ∷ 12 ∷ []) even_words idle_prec wave_device 0 (omega arith)
      (0 ∷ 0 ∷ []) false 8 idle_prec refl refl refl refl refl refl (omega arith) (omega arith)
      (omega arith, (omega arith, tt)) refl

-- Two elements of a buffer for three.
read_register_common-element_example :
    let o = even_words.options in
    let c =
      read_register_common ushort true
        (0 ∷ 0 ∷ 0 ∷ [])
        (some (record even_words { options = record o { wait = false } }))
        idle_prec
        wave_device in
    (get_elem? c.values 1
      ≡ some (element ushort (signmask wave) 1 2 4 (1 ∷ 2 ∷ 3 ∷ 4 ∷ []) (0 + 1 * 2) 0))
    × ((1 < c.count) ↔ ((1 < 3) × (0 + 1 * 2 < 4)))
    × (4 ≤ 4)
    × (c.call.device ≡ wave_device)
    × (c.call.prec.pact ≡ false)
unfolding reg_at
read_register_common-element_example =
    read_register_common-element ushort true (0 ∷ 0 ∷ 0 ∷ [])
      (record even_words { options = record even_words.options { wait = false } }) idle_prec
      wave_device 0 refl refl refl refl 1 0 refl

-- Minus two in a register of 16 bits.
-- A signed register of 16 bits whose third word is -2.
abbrev signed_device : Device
signed_device = record wave_device {
  regs =
      record wave {
        info = record wave_info { sign = signed; data_width = 16 };
        mem_rx = 1 ∷ 2 ∷ 65534 ∷ 4 ∷ [];
      }
      ∷ [];
}

abbrev third_word : Info ℕ
third_word = record even_words { options = record even_words.options { offset = 2; wait = false } }

read_register_li-value_example :
    (x : ℕ) × ((read_register_li 0 (some third_word) idle_prec signed_device).values ≡ x ∷ [])
    × (signed ≡ signed → signed32 x ≡ signed_of 16 65534)
    × (signed ≡ unsigned → x ≡ 65534)
unfolding reg_at
read_register_li-value_example =
    read_register_li-value 0 third_word idle_prec signed_device 0 refl refl refl (omega arith)
      (omega arith) (omega arith)

access-Awaited_example :
    let xs : List ℕ = 11 ∷ 12 ∷ [] in
    let w = write_register_common ushort xs (some even_words) idle_prec wave_device in
    let r = (read_register_common ushort true xs (some even_words) idle_prec wave_device).call in
    (w.prec.pact ≡ true → Awaited 0 7 wave_device w)
    × (r.prec.pact ≡ true → Awaited 0 7 wave_device r)
access-Awaited_example =
    access-Awaited ushort (11 ∷ 12 ∷ []) even_words idle_prec wave_device 0 (omega arith) true refl
      refl

settings-IsQuiet :
    let c =
      persist_settings
        (writing_hooks long (5 ∷ []) (λ prec. (prec, 1)))
        even_words
        idle_prec
        wave_device in
    IsQuiet 0 wave_device c.device × (c.info ≡ even_words)
settings-IsQuiet =
    persist_settings-IsQuiet long (5 ∷ []) (λ prec. (prec, 1)) even_words idle_prec wave_device 0 0
      (omega arith) refl

abbrev zero_limits : Limits
zero_limits = record { drvl = pos 0; lopr = pos 0; drvh = pos 0; hopr = pos 0 }

wave_limits : (post_limits wave_info zero_limits idle_prec).0 ≡ record {
  drvl = reg_min wave_info;
  lopr = reg_min wave_info;
  drvh = reg_max wave_info;
  hopr = reg_max wave_info;
}
wave_limits =
    post_limits-range wave_info zero_limits idle_prec (omega arith) (omega arith)
      (inr (refl, omega arith))

-- The limits of an unsigned register of 32 bits: the upper ones are -1.
wide_limits :
    (post_limits (record wave_info { data_width = 32 }) zero_limits idle_prec).0
    ≡ record { drvl = pos 0; lopr = pos 0; drvh = negsuc 0; hopr = negsuc 0 }
unfolding post_limits maybe_post reg_min reg_max
wide_limits = refl
