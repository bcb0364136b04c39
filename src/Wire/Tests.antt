-- ===== src/Wire/Tests.antt =====
-- A packet of one write and two reads, and the answer of a simulator with one register.
use feed_core.Prelude.{ℕ, ◌≡◌, refl, true, List, [], ◌∷◌, some, arith, get_or, Bytes, codes, ◌===◌}
use feed_core.Prelude.Words.{be_bytes}
use feed_core.Prelude.Maps.{lookup, insert, bytes_key, nat_key}
use feed_core.Prelude.Bits.{land}
use feed_core.Sim.{
  Simulator, respond, commands, command, at_name, at_register, unknown, read_or_write, is_read,
  reg_write,
}
use feed_core.Device.Types.{Device, reading, writing, reg_at, device_of}
use feed_core.Device.Send.{command_word}
use feed_core.Device.Receive.{store_word}
use feed_core.Sim.{SimReg}
use feed_core.Sim.Table.{IsTabled}
use feed_core.Support.Fixtures.{wave_device, wave, wave_info}
use feed_core.Wire.Exchange.{write-read_exchange}
use feed_core.Wire.{IsAccepted, respond-IsAccepted}

abbrev small_simulator : Simulator
small_simulator = record {
  running = true;
  reg_by_name =
      (
        codes "r",
        record {
          name = codes "r";
          base = 17;
          mask = 15;
          readable = true;
          writable = true;
          storage = 1 ∷ [];
        },
      )
      ∷ [];
  reg_by_addr = (17, codes "r") ∷ [];
}

abbrev packet : List ℕ
packet = 0xfeedc0de ∷ 0x01000005 ∷ 17 ∷ 0x1234 ∷ 0x10000011 ∷ 0 ∷ 0x10000000 ∷ 0 ∷ []

abbrev reply : Bytes
reply =
    be_bytes (0xfeedc0de ∷ 0x01000005 ∷ 17 ∷ 0x1234 ∷ 0x10000011 ∷ 4 ∷ 0x10000000 ∷ 0xabadface ∷ [])

respond_run : (respond (be_bytes packet) small_simulator).0 ≡ some reply
unfolding respond commands command at_name at_register unknown read_or_write is_read reg_write land
    lookup insert be_bytes ◌===◌
respond_run = refl

respond-IsAccepted_example : IsAccepted packet reply
respond-IsAccepted_example =
    respond-IsAccepted 2 packet reply small_simulator
      (record { long = omega arith; short = omega arith; magic = refl; slot = omega arith })
      (omega arith) respond_run

-- A device whose register of four words starts at the simulator's address 17.
abbrev wired_device : Device
wired_device = record wave_device {
  regs = record wave { info = record wave_info { base_addr = 17 } } ∷ [];
}

small_simulator-IsTabled : IsTabled small_simulator
unfolding lookup ◌===◌
small_simulator-IsTabled = record {
  tabled = (
    record {
      reg = record {
        name = codes "r";
        base = 17;
        mask = 15;
        readable = true;
        writable = true;
        storage = 1 ∷ [];
      };
      found = refl;
      named = refl;
      from_base = omega arith;
      inside = omega arith;
    },
    tt,
  );
}

write-read_exchange_example :
    let read = command_word reading 17 0 in
    let s1 = (command (command_word writing 17 0) 0x1234 small_simulator).simulator in
    let answer = (command read 0 s1).data_word in
    (reg : SimReg) × (lookup (codes "r") small_simulator.reg_by_name ≡ some reg)
    × (get_or (reg_at (device_of (store_word 0 read answer wired_device)) 0).mem_rx 0 0
        ≡ land 32 0x1234 reg.mask)
unfolding reg_at lookup
write-read_exchange_example =
    write-read_exchange small_simulator wired_device 0 0 0x1234 (codes "r") small_simulator-IsTabled
      (omega arith) (omega arith) refl (omega arith)
