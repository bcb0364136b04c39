-- ===== src/Sim/Tests.antt =====
-- Runs of the simulator on a table with one register of two words, and the theorems at them.
use feed_core.Prelude.{
  ℕ, ◌≡◌, ◌≢◌, ◌<◌, ◌≤◌, ◌+◌, ◌^◌, refl, true, false, [], ◌∷◌, ◌++◌, none, some, arith, length,
  take, Bytes, codes, ◌===◌,
}
use feed_core.Prelude.Exn.{ok}
use feed_core.Prelude.Words.{be_bytes}
use feed_core.Prelude.Maps.{lookup, insert, bytes_key, nat_key}
use feed_core.Prelude.Bits.{land}
use feed_core.Sim.{
  SimReg, Simulator, add, map_addrs, command, at_name, at_register, read_or_write, is_read,
  reg_write, commands, respond, pkt_size_limit,
}
use feed_core.Sim.Table.{IsTabled, add-IsTabled}
use feed_core.Sim.Replies.{IsAnswer, respond-IsAnswer}
use feed_core.Sim.Memory.{read_word, write-read}

abbrev two_words : SimReg
two_words = record {
  name = codes "r";
  base = 16;
  mask = 255;
  readable = true;
  writable = true;
  storage = 1 ∷ 2 ∷ [];
}

abbrev no_regs : Simulator
no_regs = record { running = false; reg_by_name = []; reg_by_addr = [] }

abbrev one_reg : Simulator
one_reg = record {
  running = false;
  reg_by_name = (codes "r", two_words) ∷ [];
  reg_by_addr = (16, codes "r") ∷ (17, codes "r") ∷ [];
}

add_run : add two_words no_regs ≡ ok one_reg
unfolding add lookup map_addrs insert
add_run = refl

add-IsTabled_example :
    IsTabled one_reg
    × (lookup (codes "r") no_regs.reg_by_name ≡ none)
    × (two_words.base + length two_words.storage < 2 ^ 32
        → (a : ℕ) → two_words.base ≤ a
        → a < two_words.base + length two_words.storage
        → lookup a one_reg.reg_by_addr ≡ some two_words.name)
add-IsTabled_example = add-IsTabled two_words no_regs one_reg add_run (record { tabled = tt })

one_reg-IsTabled : IsTabled one_reg
one_reg-IsTabled = (add-IsTabled two_words no_regs one_reg add_run (record { tabled = tt })).0

write-read_example :
    IsTabled (command 17 0x1234 one_reg).simulator
    × ((reg : SimReg) × (lookup (codes "r") one_reg.reg_by_name ≡ some reg)
        × (read_word 17 0 (command 17 0x1234 one_reg).simulator ≡ land 32 0x1234 reg.mask))
    × ((b : ℕ) (other : Bytes)
        → b < 2 ^ 24
        → 17 ≢ b
        → lookup b one_reg.reg_by_addr ≡ some other
        → read_word b 0 (command 17 0x1234 one_reg).simulator ≡ read_word b 0 one_reg)
unfolding lookup
write-read_example = write-read one_reg 17 0x1234 0 (codes "r") one_reg-IsTabled (omega arith) refl

-- A read of the first word, a write of the second and a read of it, and two trailing bytes.
abbrev request : Bytes
request =
    be_bytes (0xfeedc0de ∷ 5 ∷ 0x10000010 ∷ 0 ∷ 17 ∷ 0x1234 ∷ 0x10000011 ∷ 0 ∷ []) ++ 9 ∷ 9 ∷ []

abbrev reply : Bytes
reply =
    be_bytes (0xfeedc0de ∷ 5 ∷ 0x10000010 ∷ 1 ∷ 17 ∷ 0x1234 ∷ 0x10000011 ∷ 0x34 ∷ []) ++ 9 ∷ 9 ∷ []

respond_run : (respond request one_reg).0 ≡ some reply
unfolding respond commands command at_name at_register read_or_write is_read reg_write land lookup
    insert be_bytes ◌===◌
respond_run = refl

respond-IsAnswer_example :
    IsAnswer (take pkt_size_limit request) reply × (32 ≤ length (take pkt_size_limit request))
respond-IsAnswer_example = respond-IsAnswer request reply one_reg respond_run
