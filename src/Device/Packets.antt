-- ===== src/Device/Packets.antt =====
-- The packets that Device::handle_send makes.
use feed_core.Prelude.{
  ℕ, zero, suc, ◌+◌, ◌-◌, ◌*◌, ◌/◌, ◌%◌, ◌^◌, ◌<◌, ◌≤◌, ◌≡◌, ◌∙◌, List, [], ◌∷◌, ◌++◌, arith,
  length, length-append, length-set, length-take, length-replicate, get_or, get_or-set_self,
  get_or-set_ne, set, take, ltb, Bool-cases, inl, inr,
}
use feed_core.Device.Types.{DevMsg, nreg}
use feed_core.Device.Send.{resize, pad_buf, sealed}

-- A message within the packet size limit, in 32-bit words.
abbrev pub IsFitting : DevMsg → Type 0
IsFitting m = length m.buf ≤ 2 * (nreg + 1)

-- A packet of a device with n messages: at least 32 bytes, at most the packet size limit, the magic
-- word, and in the top byte of the sequence word the number of its message.
pub record IsPacket (n : ℕ) (words : List ℕ) : Type 0 where
  pub long : 8 ≤ length words
  pub short : length words ≤ 2 * (nreg + 1)
  pub magic : get_or words 0 0 ≡ 0xfeedc0de
  pub slot : get_or words 1 0 / 2 ^ 24 < n

pub length-resize : (n : ℕ) (xs : List ℕ) → length (resize n xs) ≡ n
unfolding resize
length-resize n xs =
    length-append (take n xs) _
    ∙ omega (arith, length-take n xs, length-replicate {A = ℕ} (n - length xs) 0)

-- A round of padding, up to the eighth word.
pad_buf_long : (fuel : ℕ) (buf : List ℕ) → 8 ≤ length buf + 2 * fuel → 8 ≤ length (pad_buf fuel buf)
unfolding pad_buf
pad_buf_long zero buf h = omega arith
pad_buf_long (suc fuel) buf h = elim (Bool-cases (ltb (length buf) 8)) [
  | inl e ↦ rw e (
      pad_buf_long fuel (buf ++ 0x10000000 ∷ 0 ∷ [])
        (omega (arith, length-append buf (0x10000000 ∷ 0 ∷ []))))
  | inr e ↦ rw e (ground arith)
]

pad_buf_short :
    (fuel : ℕ) (buf : List ℕ)
    → length buf ≤ 2 * (nreg + 1)
    → length (pad_buf fuel buf) ≤ 2 * (nreg + 1)
unfolding pad_buf
pad_buf_short zero buf h = h
pad_buf_short (suc fuel) buf h = elim (Bool-cases (ltb (length buf) 8)) [
  | inl e ↦ rw e (
      pad_buf_short fuel (buf ++ 0x10000000 ∷ 0 ∷ [])
        (ground (arith, length-append buf (0x10000000 ∷ 0 ∷ []))))
  | inr e ↦ rw e h
]

pub sealed-IsPacket :
    (n i send_seq : ℕ) (m : DevMsg) → i < n → IsFitting m → IsPacket n (sealed i send_seq m).buf
unfolding sealed
sealed-IsPacket n i q m h f =
    let buf = pad_buf 8 m.buf in
    let seq = i * 2 ^ 24 + q % 2 ^ 24 in
    let long = pad_buf_long 8 m.buf (omega arith) in
    let same = length-set (set buf 0 0xfeedc0de) 1 seq ∙ length-set buf 0 0xfeedc0de in
    record {
      long = omega arith;
      short = omega (arith, pad_buf_short 8 m.buf f);
      magic =
          get_or-set_ne (set buf 0 0xfeedc0de) 1 0 seq 0 (λ e. ground arith)
          ∙ get_or-set_self buf 0 0xfeedc0de 0 (omega arith);
      slot =
          rw
            (get_or-set_self (set buf 0 0xfeedc0de) 1 seq 0
              (omega (arith, length-set buf 0 0xfeedc0de)))
            (omega arith);
    }

-- The sequence word that the message i is sealed with stands in its packet, and has i in its top byte.
pub sealed-number :
    (i send_seq : ℕ) (m : DevMsg)
    → (get_or (sealed i send_seq m).buf 1 0 ≡ (sealed i send_seq m).seq)
      × ((sealed i send_seq m).seq / 2 ^ 24 ≡ i)
unfolding sealed
sealed-number i q m =
    let buf = pad_buf 8 m.buf in
    (
      get_or-set_self (set buf 0 0xfeedc0de) 1 (i * 2 ^ 24 + q % 2 ^ 24) 0
          (omega (arith, length-set buf 0 0xfeedc0de, pad_buf_long 8 m.buf (omega arith))),
      omega arith,
    )
