-- ===== src/Device/Commands.antt =====
-- A command word against the reply that answers it.
use feed_core.Prelude.{ℕ, ◌+◌, ◌*◌, ◌^◌, ◌<◌, ◌≡◌, arith}
use feed_core.Prelude.Words.{add32}
use feed_core.Device.Types.{RegState, invalid, in_sync, reading, writing}
use feed_core.Device.Send.{or_read, command_word, is_reading}
use feed_core.Device.Receive.{reply_offset, is_read_reply, without_status}

pub or_read_small : (b o : ℕ) → b + o < 2 ^ 24 → or_read (add32 b o) ≡ b + o + 2 ^ 28
unfolding or_read
or_read_small b o h = ground arith

-- A reply that echoes the command for a word of a register within the 24-bit address space, with any
-- value of the four status bits, passes the check against the command, is taken for a read exactly
-- when the command was one, and goes to the word that was asked for.
pub reply-command :
    (s : RegState) (base_addr offset status : ℕ)
    → base_addr + offset < 2 ^ 24
    → status < 16
    → let word = command_word s base_addr offset in
      let reply = word + status * 2 ^ 24 in
      (without_status reply ≡ word)
      × (is_read_reply reply ≡ is_reading s)
      × (reply_offset reply base_addr ≡ offset)
unfolding command_word without_status is_read_reply reply_offset
reply-command invalid b o t h k = (omega arith, ground arith, omega arith)
reply-command in_sync b o t h k = (omega arith, ground arith, omega arith)
reply-command writing b o t h k = (omega arith, ground arith, omega arith)
reply-command reading b o t h k = rw (or_read_small b o h) (omega arith, ground arith, omega arith)
