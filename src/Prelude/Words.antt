-- ===== src/Prelude/Words.antt =====
-- Bytes and 32-bit words in network byte order, on a host for which `ntohl` swaps bytes.
use Prim.Native.Nat.{ℕ, ◌+◌, ◌-◌, ◌*◌, ◌/◌, ◌%◌, ◌^◌, ◌<◌}
use mathlib.Core.Path.{◌≡◌}
use mathlib.Core.List.{List, [], ◌∷◌, ◌++◌}
use native.Mathlib.Omega.{arith}
use feed_core.Prelude.Tests.{Bytes}

abbrev pub IsByte : ℕ → Type 0
IsByte b = b < 256

-- The value of four bytes, first byte highest.
unfoldable pub be32 : ℕ → ℕ → ℕ → ℕ → ℕ
be32 a b c d = ((a * 256 + b) * 256 + c) * 256 + d

-- htonl, written to memory.
unfoldable pub put_be32 : ℕ → Bytes
put_be32 v = v / 2 ^ 24 % 256 ∷ v / 2 ^ 16 % 256 ∷ v / 2 ^ 8 % 256 ∷ v % 256 ∷ []

-- Subtraction on epicsUInt32.
abbrev pub sub32 : ℕ → ℕ → ℕ
sub32 a b = (a + 2 ^ 32 - b) % 2 ^ 32

abbrev pub add32 : ℕ → ℕ → ℕ
add32 a b = (a + b) % 2 ^ 32

pub be32-put :
    (v : ℕ)
    → v < 2 ^ 32
    → be32 (v / 2 ^ 24 % 256) (v / 2 ^ 16 % 256) (v / 2 ^ 8 % 256) (v % 256) ≡ v
unfolding be32
be32-put v h = omega arith

-- An array of epicsUInt32 in memory.
unfoldable pub le_bytes : List ℕ → Bytes
le_bytes [] = []
le_bytes (v ∷ vs) = v % 256 ∷ v / 2 ^ 8 % 256 ∷ v / 2 ^ 16 % 256 ∷ v / 2 ^ 24 % 256 ∷ le_bytes vs

-- The same array when each word holds its value in network order.
unfoldable pub be_bytes : List ℕ → Bytes
unfolding put_be32
be_bytes [] = []
be_bytes (v ∷ vs) = put_be32 v ++ be_bytes vs

-- The values of a buffer's words in network order: ntohl of each.
unfoldable pub be_words : Bytes → List ℕ
be_words (a ∷ b ∷ c ∷ d ∷ rest) = be32 a b c d ∷ be_words rest
be_words _ = []
