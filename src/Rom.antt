-- ===== src/Rom.antt =====
-- src/util/rom.cpp and rom.h: the ROM image of a device. Buffers are lists of bytes; the host is
-- little-endian. zlib's two directions are the functions `zinflate` and `zdeflate` of the codec.
pub mod Hex
pub mod Loop
pub mod Contents
pub mod Image
pub mod RoundTrip
pub mod Bounds
pub mod Words
mod Tests
use feed_core.Prelude.{
  ℕ, zero, suc, ◌+◌, ◌-◌, ◌*◌, ◌/◌, ◌%◌, ◌^◌, ◌≤◌, ◌<◌, Bool, true, false, ◌&&◌, List, [], ◌∷◌,
  ◌++◌, ltb, leb, ◌==◌, if◌then◌else◌, Bytes, length, take, drop,
}
use feed_core.Prelude.Exn.{Exn, runtime_error, logic_error, fuel_out, Result, ok, err, ◌>>=◌}
use feed_core.Prelude.Words.{be32, put_be32, be_words, le_bytes}

-- ROMDescriptor::type_t
pub data DescType : Type 0 where
  invalid text big_int json : DescType

pub record RomDescriptor : Type 0 where
  pub type : DescType
  pub value : Bytes

-- zpp.cpp, as a ROM uses it; Zpp.codec_of is one.
pub record Codec : Type 0 where
  pub zinflate : Bytes → Result Bytes
  pub zdeflate : Bytes → Result Bytes

unfoldable pub hexchar : ℕ → ℕ
hexchar i = let n = i % 16 in if leb n 9 then b'0' + n else b'a' + n - 10

unfoldable pub unhexchar : ℕ → ℕ
unhexchar c =
    if leb b'0' c && leb c b'9'
    then c - b'0'
    else if leb b'A' c && leb c b'F'
    then c - b'A' + 10
    else if leb b'a' c && leb c b'f'
    then c - b'a' + 10
    else 0

unfoldable pub type_code : DescType → ℕ
type_code invalid = 0
type_code text = 1
type_code big_int = 2
type_code json = 3

-- The cast of a two-bit number to type_t.
unfoldable pub type_of_code : ℕ → DescType
type_of_code zero = invalid
type_of_code (suc zero) = text
type_of_code (suc (suc zero)) = big_int
type_of_code (suc (suc (suc n))) = json

-- The copy that leaves out the two unused bytes of each word.
unfoldable pub contents : Bool → Bytes → Bytes
contents swap (a ∷ b ∷ c ∷ d ∷ rest) =
    let more = contents swap rest in if swap then c ∷ d ∷ more else b ∷ a ∷ more
contents swap _ = []

-- The bytes in front of the first NUL: strnlen.
unfoldable pub until_nul : Bytes → Bytes
until_nul [] = []
until_nul (c ∷ cs) = let rest = c ∷ until_nul cs in if c == 0 then [] else rest

unfoldable pub to_hex : Bytes → Bytes
unfolding hexchar
to_hex [] = []
to_hex (b ∷ bs) = hexchar (b / 16) ∷ hexchar b ∷ to_hex bs

-- Two digits to a byte; a last digit alone is the upper half of its byte.
unfoldable pub from_hex : Bytes → Bytes
unfolding unhexchar
from_hex [] = []
from_hex (a ∷ []) = (unhexchar a * 16) ∷ []
from_hex (a ∷ b ∷ rest) = (unhexchar a * 16 + unhexchar b) ∷ from_hex rest

-- `if(contents.size()%2) contents.push_back('\0')`
unfoldable pub pad_even : Bytes → Bytes
pad_even c = if length c % 2 == 1 then c ++ 0 ∷ [] else c

-- The loop that writes two bytes to the lower half of each word.
unfoldable pub spread : Bytes → Bytes
spread (a ∷ b ∷ rest) = 0 ∷ 0 ∷ a ∷ b ∷ spread rest
spread _ = []

module _ (codec : Codec) where
  -- The switch of `parse`, on the copied contents.
  unfoldable pub decode : DescType → Bytes → Result Bytes
  decode invalid c = ok []
  decode text c = ok (until_nul c)
  decode big_int c = ok (to_hex c)
  decode json c = codec.zinflate c

  -- A round takes four bytes at least.
  unfoldable pub parse_loop : ℕ → Bool → Bytes → Result (List RomDescriptor)
  parse_loop zero swap buf = err fuel_out
  parse_loop (suc fuel) swap (a ∷ b ∷ c ∷ d ∷ rest) =
      let val = if swap then be32 a b c d else be32 d c b a in
      let type = type_of_code (val / 2 ^ 14) in
      let size = val % 2 ^ 14 * 4 in
      let more = decode type (contents swap (take size rest)) >>= λ v.
      parse_loop fuel swap (drop size rest) >>= λ infos.
      ok (record { type = type; value = v } ∷ infos) in
      if leb (2 ^ 16) val
      then err (runtime_error "Does not look like ROM contents (high word set)" [])
      else if val / 2 ^ 14 == 0
      then ok []
      else if ltb (length rest) size
      then ok []
      else more
  parse_loop (suc fuel) swap _ = ok []

  -- ROM::parse. The old infos are replaced only by an `ok`.
  unfoldable pub parse : Bool → Bytes → Result (List RomDescriptor)
  parse swap buf = parse_loop (suc (length buf)) swap buf

  -- The switch of `prepare`.
  unfoldable pub encode : RomDescriptor → Result Bytes
  encode d = elim d.type [
    | invalid ↦ err (logic_error "ROM can't contain Invalid ROMDescriptor" [])
    | text ↦ ok d.value
    | big_int ↦ ok (from_hex d.value)
    | json ↦ codec.zdeflate d.value
  ]

  -- ROM::prepare(char*): the buffer from `buf` on, and the bytes used. What a throw leaves in the
  -- buffer is not modelled.
  unfoldable pub prepare : List RomDescriptor → Bytes → Result (Bytes × ℕ)
  prepare [] buf =
      if ltb (length buf) 4
      then err (runtime_error "Not enough space to add End Descriptor" [])
      else ok (buf, 0)
  prepare (d ∷ infos) buf = encode d >>= λ raw.
      let c = pad_even raw in
      let need = 4 + length c * 2 in
      let header = type_code d.type * 2 ^ 14 + length c / 2 in
      if leb 0x4000 (length c / 2)
      then err (runtime_error "Descriptor too large" (type_code d.type ∷ length c ∷ []))
      else if ltb (length buf) need
      then err (runtime_error "Not enough space to encode ROM contents" (length buf ∷ need ∷ []))
      else prepare infos (drop need buf) >>= λ out.
          ok (put_be32 header ++ (spread c ++ out.0), need + out.1)

  -- ROM::prepare(epicsUInt32*): the words are written as bytes and then swapped one by one.
  unfoldable pub prepare_words : List RomDescriptor → List ℕ → Result (List ℕ × ℕ)
  prepare_words infos ws = prepare infos (le_bytes ws) >>= λ r. ok (be_words r.0, r.1 / 4)
