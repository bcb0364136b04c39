-- ===== src/Rom/Hex.antt =====
-- The hexadecimal digits of rom.cpp.
use feed_core.Prelude.{ℕ, ◌%◌, ◌<◌, ◌≡◌, arith}
use feed_core.Rom.{hexchar, unhexchar}

pub unhexchar-hexchar : (i : ℕ) → unhexchar (hexchar i) ≡ i % 16
unfolding hexchar unhexchar
unhexchar-hexchar i = ground arith

pub unhexchar-lt : (c : ℕ) → unhexchar c < 16
unfolding unhexchar
unhexchar-lt c = ground arith
