-- ===== src/Support/ReadBack.antt =====
-- A write through a record of src/driver/devreg.cpp against a read with the option rbv.
use native.Mathlib.Nat.{suc-mul}
use feed_core.Prelude.{
  ℕ, ◌+◌, ◌*◌, ◌^◌, ◌%◌, ◌<◌, ◌≡◌, refl, ap, ◌∙◌, Bool, true, false, not, ◌&&◌, ◌||◌, List, [], ◌∷◌,
  some, arith, length, length-set, get_or, get_or-set_self, set, ltb, lt→ltb, Void, All,
}
use feed_core.Prelude.Int.{pos}
use feed_core.JBlob.{unsigned}
use feed_core.Device.Types.{DevReg, Device, reg_at, active}
use feed_core.Device.Register.{queue}
use feed_core.Device.Store.{reg_at-set_reg_self}
use feed_core.Support.Types.{
  Doubles, Ftype, char, uchar, short, ushort, long, ulong, double, is_supported, Elem, Prec, Info,
  waiter, success,
}
use feed_core.Support.Write.{
  load, write_loop, copy_out, write_register_common, write_attached, start_write, is_writable,
  committed,
}
use feed_core.Support.Frame.{Framed, Framed-refl, queue-Framed, if-device}
use feed_core.Support.Read.{
  extended, store, read_loop, read_register_common, is_allowed, is_cached, copy_in,
}
use feed_core.Support.Copied.{read_register_common-copy_in}
use feed_core.Support.Extension.{extended_none}
use feed_core.Support.Bounds.{
  committed-device, length-copy_out, length-write_loop, write_loop-IsSpared,
}

-- The record that reads back: another one, attached to the same register with the same offset, step and
-- scale, with rbv and any wait, and with no limit on the number of words.
abbrev pub reader : {D : Type 0} → Info D → Bool → ℕ → Info D
reader info wait self = record {
  options = record info.options { rbv = true; wait = wait };
  size = 0;
  reg = info.reg;
  self = self;
}

or_more : (a b c d : Bool) → (a || b || c) ≡ true → (a || b || c || d) ≡ true
or_more true b c d h = refl
or_more false true c d h = refl
or_more false false true d h = refl
or_more false false false d h = cc

guards : (w l c : Bool) → (w && not l && not c) ≡ true → (not (not w) && not l) ≡ true
guards true true c h = cc
guards true false c h = refl
guards false l c h = cc

module _ ⦃F : Doubles⦄ where
  -- An element that survives the way to a word and back.
  abbrev pub Fits : (t : Ftype) → F.Double → Elem F.Double t → Type 0
  Fits char scale x = x < 2 ^ 8
  Fits uchar scale x = x < 2 ^ 8
  Fits short scale x = x < 2 ^ 16
  Fits ushort scale x = x < 2 ^ 16
  Fits long scale x = x < 2 ^ 32
  Fits ulong scale x = x < 2 ^ 32
  Fits double scale x = F.product (pos (F.quotient x scale % 2 ^ 32)) scale ≡ x
  Fits _ scale x = Void

  store-load :
      (t : Ftype) (scale : F.Double) (x y : Elem F.Double t)
      → Fits t scale x
      → store t 0 scale (load t scale x) y ≡ x
  unfolding store load
  store-load char scale x y h = omega arith
  store-load uchar scale x y h = omega arith
  store-load short scale x y h = omega arith
  store-load ushort scale x y h = omega arith
  store-load long scale x y h = omega arith
  store-load ulong scale x y h = omega arith
  store-load double scale x y h = h
  store-load _ scale x y h = elim h [ ]

  module _ (t : Ftype) (scale : F.Double) (step size : ℕ) (forward : 0 < step) where
    -- The words in front of the first that is written.
    word_kept :
        (i : ℕ) (xs : List (Elem F.Double t)) (mem : List ℕ)
        → get_or (write_loop t scale step size (i + step) xs mem) i 0 ≡ get_or mem i 0
    word_kept i xs mem =
        write_loop-IsSpared t scale step size (i + step) xs mem i (λ k h e. omega arith)

    write_step :
        (i : ℕ) (x : Elem F.Double t) (xs : List (Elem F.Double t)) (mem : List ℕ)
        → ltb i size ≡ true
        → write_loop t scale step size i (x ∷ xs) mem
          ≡ write_loop t scale step size (i + step) xs (set mem i (load t scale x))
    unfolding write_loop
    write_step i x xs mem e = rw e refl

    read_step :
        (mem : List ℕ) (i : ℕ) (y : Elem F.Double t) (ys : List (Elem F.Double t))
        → ltb i size ≡ true
        → read_loop t 0 scale step size mem i (y ∷ ys)
          ≡ store t 0 scale (extended 0 (get_or mem i 0)) y
            ∷ read_loop t 0 scale step size mem (i + step) ys
    unfolding read_loop
    read_step mem i y ys e = rw e refl

    pub read_loop-write_loop :
        (i : ℕ) (xs ys : List (Elem F.Double t)) (mem : List ℕ)
        → length mem ≡ size
        → length ys ≡ length xs
        → i + length xs * step < size + step
        → All (Fits t scale) xs
        → read_loop t 0 scale step size (write_loop t scale step size i xs mem) i ys ≡ xs
    read_loop-write_loop i [] [] mem m l room fits = unfold read_loop in refl
    read_loop-write_loop i [] (y ∷ ys) mem m l room fits = absurd (omega arith)
    read_loop-write_loop i (x ∷ xs) [] mem m l room fits = absurd (omega arith)
    read_loop-write_loop i (x ∷ xs) (y ∷ ys) mem m l room fits =
        let more = suc-mul (length xs) step in
        let here : i < size = omega arith in
        let mem1 = set mem i (load t scale x) in
        let rest =
          read_loop-write_loop (i + step) xs ys mem1 (length-set mem i _ ∙ m) (omega arith)
            (omega arith) fits.1 in
        let same = word_kept i xs mem1 ∙ get_or-set_self mem i (load t scale x) 0 (omega arith) in
        rw (write_step i x xs mem (lt→ltb i size here)) (
          rw
            (read_step (write_loop t scale step size (i + step) xs mem1) i y ys
              (lt→ltb i size here))
            (rw (rest, same, extended_none (load t scale x), store-load t scale x y fits.0) refl))

module _ ⦃F : Doubles⦄ (t : Ftype) (xs : List (Elem F.Double t)) (info : Info F.Double)
    (prec : Prec) (d : Device) (p : ℕ) (valid : p < length d.regs) where
  start_write-Framed : Framed p (copy_out t info p xs d) (start_write t info p xs prec d).device
  unfolding start_write
  start_write-Framed =
      let d1 = copy_out t info p xs d in
      let q = queue p true (waiter info) d1 in
      if-device info.options.commit (committed info prec q)
        (record { status = success; prec = prec; device = d1 }) (Framed p d1)
        (rw (committed-device t xs info prec d p valid q) (
          queue-Framed p (waiter info) d1 (rw (length-copy_out t xs info prec d p valid) valid)
            true))
        (Framed-refl p d1)

  written_at : reg_at (copy_out t info p xs d) p ≡ record (reg_at d p) {
    mem_tx =
        write_loop t info.options.scale info.options.step
          (length (reg_at d p).mem_tx)
          info.options.offset
          xs
          (reg_at d p).mem_tx;
  }
  unfolding copy_out
  written_at = reg_at-set_reg_self d p _ valid

  write-start :
      is_supported t ≡ true
      → info.reg ≡ some p
      → is_writable info (reg_at d p) (length xs) ≡ true
      → prec.pact ≡ false
      → write_register_common t xs (some info) prec d ≡ start_write t info p xs prec d
  unfolding write_register_common
  write-start supported at writable idle = rw supported (
      ap (write_attached t info xs prec d) at ∙ (unfold write_attached in rw (writable, idle) refl))

  reader_cached :
      (wait : Bool) (self : ℕ) (prec' : Prec) (d' : Device)
      → (prec'.io_intr || not wait || prec'.pact) ≡ true
      → is_cached (reader info wait self) prec' d' ≡ true
  reader_cached wait self prec' d' h =
      or_more prec'.io_intr (not wait) prec'.pact (not (active d'.current)) h

  reader_allowed :
      (wait : Bool) (self : ℕ) (r : DevReg)
      → length r.mem_tx ≡ length (reg_at d p).mem_tx
      → r.info.writable ≡ (reg_at d p).info.writable
      → is_writable info (reg_at d p) (length xs) ≡ true
      → is_allowed (reader info wait self) r ≡ true
  reader_allowed wait self r size same ok =
      rw (size, same) (guards (reg_at d p).info.writable _ _ ok)

  copied_back :
      (ys : List (Elem F.Double t)) (wait : Bool) (self : ℕ) (prec' : Prec) (d' : Device)
      (r : DevReg) (mem : List ℕ)
      → r.info.sign ≡ unsigned
      → r.mem_tx ≡ mem
      → (copy_in t true (reader info wait self) r ys prec' d').values
        ≡ read_loop t 0 info.options.scale info.options.step (length mem) mem info.options.offset ys
  unfolding copy_in
  copied_back ys wait self prec' d' r mem plain tx = rw (tx, plain) refl

  -- An array of a supported type is written by an attached record, which is not active and whose write is
  -- not refused, to an unsigned register, with a step of at least 1 and within the register's bounds.
  -- Another record with the same register, offset, step and scale, with rbv and with no limit on the
  -- number of words, that does not wait, is scanned as I/O Intr or is active, then reads the array back
  -- unchanged into a buffer of its length, also while the write is in progress. The elements are those
  -- that a word can hold: they fit their width, and a double is what its word converts back to.
  pub write-read_back :
      (ys : List (Elem F.Double t)) (wait : Bool) (self : ℕ) (prec' : Prec)
      → (prec'.io_intr || not wait || prec'.pact) ≡ true
      → is_supported t ≡ true
      → info.reg ≡ some p
      → is_writable info (reg_at d p) (length xs) ≡ true
      → (reg_at d p).info.sign ≡ unsigned
      → prec.pact ≡ false
      → 0 < info.options.step
      → info.options.offset + length xs * info.options.step
        < length (reg_at d p).mem_tx + info.options.step
      → All (Fits t info.options.scale) xs
      → length ys ≡ length xs
      → (read_register_common t true ys
          (some (reader info wait self))
          prec'
          (write_register_common t xs (some info) prec d).device).values
        ≡ xs
  write-read_back ys wait self prec' cached supported at writable plain idle forward room fits
        same =
      let c = start_write t info p xs prec d in
      let f = start_write-Framed in
      let o = info.options in
      let mem = (reg_at d p).mem_tx in
      let written = write_loop t o.scale o.step (length mem) o.offset xs mem in
      let tx : (reg_at c.device p).mem_tx ≡ written = f.same_tx ∙ ap (λ r. r.mem_tx) written_at in
      let info_kept : (reg_at c.device p).info ≡ (reg_at d p).info =
        f.same_info ∙ ap (λ r. r.info) written_at in
      let size : length written ≡ length mem =
        length-write_loop t o.scale o.step (length mem) o.offset xs mem in
      rw (write-start supported at writable idle) (
        rw
          (read_register_common-copy_in t true ys (reader info wait self) prec' c.device p supported
            at
            (reader_allowed wait self (reg_at c.device p) (ap length tx ∙ size)
              (ap (λ i. i.writable) info_kept) writable)
            (reader_cached wait self prec' c.device cached))
          (copied_back ys wait self prec' c.device (reg_at c.device p) written
              (ap (λ i. i.sign) info_kept ∙ plain) tx
            ∙ (rw size (
                read_loop-write_loop t o.scale o.step (length mem) forward o.offset xs ys mem refl
                  same room fits))))
