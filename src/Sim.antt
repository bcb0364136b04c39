-- ===== src/Sim.antt =====
-- src/sim/simulator.cpp and simulator.h: the simulator of a device. A pointer to a register is the
-- register's name, since a map of registers never loses an entry; log output is not modelled.
pub mod Table
pub mod Sound
pub mod Memory
pub mod Replies
pub mod Hires
pub mod Rfs
mod Tests
use feed_core.Prelude.{
  ℕ, zero, suc, ◌+◌, ◌-◌, ◌*◌, ◌/◌, ◌%◌, ◌^◌, Bool, true, false, ◌||◌, ◌&&◌, not, List, [], ◌∷◌,
  ◌++◌, Option, none, some, ltb, leb, ◌==◌, ◌===◌, if◌then◌else◌, Bytes, codes, length, set, get_or,
  take, drop, replicate,
}
use feed_core.Prelude.Words.{be32, put_be32, add32, sub32}
use feed_core.Prelude.Bits.{land}
use feed_core.Prelude.Exn.{
  Exn, runtime_error, logic_error, socket_error, assertion, Result, ok, err, ◌>>=◌,
}
use feed_core.Prelude.Maps.{lookup, insert, bytes_key, nat_key}
use feed_core.JBlob.{JRegister}
use feed_core.Device.Types.{nreg}

pub record SimReg : Type 0 where
  pub name : Bytes
  pub base : ℕ
  pub mask : ℕ
  pub readable : Bool
  pub writable : Bool
  pub storage : List ℕ

-- SimReg::SimReg, for widths below 64; the comparison is one of unsigned 64-bit numbers.
unfoldable pub new_sim_reg : JRegister → Result SimReg
new_sim_reg reg =
    let size = 2 ^ reg.addr_width in
    if ltb ((0xffffffff + 2 ^ 64 - (size - 1)) % 2 ^ 64) reg.base_addr
    then err (
        runtime_error " has inconsistent base  and addr_width "
          (reg.base_addr ∷ reg.addr_width ∷ []))
    else ok (record {
      name = reg.name;
      base = reg.base_addr;
      mask = (2 ^ reg.data_width - 1) % 2 ^ 32;
      readable = reg.readable;
      writable = reg.writable;
      storage = replicate size 0;
    })

pub record Simulator : Type 0 where
  pub running : Bool
  pub reg_by_name : List (Bytes × SimReg)
  pub reg_by_addr : List (ℕ × Bytes)

-- The loop of `add` over the addresses from addr on.
unfoldable pub map_addrs : ℕ → ℕ → Bytes → List (ℕ × Bytes) → List (ℕ × Bytes)
map_addrs zero addr name m = m
map_addrs (suc n) addr name m = map_addrs n (addr + 1) name (insert addr name m)

-- Simulator::add. The end address is an epicsUInt32.
unfoldable pub add : SimReg → Simulator → Result Simulator
add reg s =
    let endaddr = add32 reg.base (length reg.storage) in
    elim (lookup reg.name s.reg_by_name) [
      | some old ↦ err (runtime_error "Duplicate register name: " reg.name)
      | none ↦ ok (record s {
        reg_by_name = insert reg.name reg s.reg_by_name;
        reg_by_addr = map_addrs (endaddr - reg.base) reg.base reg.name s.reg_by_addr;
      })
    ]

unfoldable pub add_all : List (Bytes × JRegister) → Simulator → Result Simulator
add_all [] s = ok s
add_all ((k, reg) ∷ regs) s = new_sim_reg reg >>= (λ r. add r s) >>= add_all regs

abbrev pub hello_reg : SimReg
hello_reg = record {
  name = codes "Hello";
  base = 0;
  mask = 0xffffffff;
  readable = true;
  writable = false;
  storage = 0x48656c6c ∷ 0x6f20576f ∷ 0x726c6421 ∷ 0x0d0a0d0a ∷ [];
}

unfoldable pub rom_reg : SimReg
rom_reg = record {
  name = codes "ROM";
  base = 0x800;
  mask = 0xffff;
  readable = true;
  writable = false;
  storage = replicate 0x800 0;
}

-- Writing to the storage of a register, without a check of the offset.
unfoldable pub put : SimReg → ℕ → ℕ → Simulator → Simulator
put reg offset v s = record s {
  reg_by_name = insert reg.name (record reg { storage = set reg.storage offset v }) s.reg_by_name;
}

-- One initial value; `reg_by_addr` has only names that are in `reg_by_name`.
unfoldable pub init_value : ℕ → ℕ → Simulator → Result Simulator
init_value addr v s = elim (lookup addr s.reg_by_addr) [
  | none ↦ ok s
  | some name ↦ elim (lookup name s.reg_by_name) [
    | none ↦ ok s
    | some reg ↦
        if reg.name === codes "ROM"
        then ok s
        else if reg.base == 0x800
        then err (assertion "reg.base!=0x800")
        else ok (put reg (sub32 addr reg.base) v s)
  ]
]

unfoldable pub init_values : List (ℕ × ℕ) → Simulator → Result Simulator
init_values [] s = ok s
init_values ((addr, v) ∷ vs) s = init_value addr v s >>= init_values vs

-- Simulator::Simulator, without the sockets.
unfoldable pub new_simulator : List (Bytes × JRegister) → List (ℕ × ℕ) → Result Simulator
new_simulator blob initial =
    add_all blob (record { running = false; reg_by_name = []; reg_by_addr = [] })
    >>= add hello_reg
    >>= add rom_reg
    >>= init_values initial

-- Simulator::reg_write
unfoldable pub reg_write : SimReg → ℕ → ℕ → SimReg
reg_write reg offset newval = record reg {
  storage = set reg.storage offset (land 32 newval reg.mask);
}

-- What one command makes: the data word of its answer, whether the request is ignored, and the
-- registers.
pub record Answer : Type 0 where
  pub data_word : ℕ
  pub ignored : Bool
  pub simulator : Simulator

-- `cmd_addr&0x10000000`
unfoldable pub is_read : ℕ → Bool
is_read cmd_addr = cmd_addr / 2 ^ 28 % 2 == 1

-- The body of the loop over the commands: where the address leads nowhere, and for a register that it
-- leads to.
module _ (cmd_addr value : ℕ) (s : Simulator) where
  unfoldable pub unknown : Answer
  unknown = record {
    data_word = if is_read cmd_addr then 0xabadface else value;
    ignored = false;
    simulator = s;
  }

  unfoldable pub read_or_write : Bool → Bytes → SimReg → Answer
  read_or_write true name reg = record {
    data_word = get_or reg.storage (sub32 (cmd_addr % 2 ^ 24) reg.base) 0;
    ignored = reg.name === codes "ghost";
    simulator = s;
  }
  read_or_write false name reg =
      let offset = sub32 (cmd_addr % 2 ^ 24) reg.base in
      record {
        data_word = value;
        ignored = reg.name === codes "ghost";
        simulator = record s {
          reg_by_name = insert name (reg_write reg offset (land 32 value reg.mask)) s.reg_by_name;
        };
      }

  unfoldable pub at_register : Bytes → Option SimReg → Answer
  at_register name none = unknown
  at_register name (some reg) = read_or_write (is_read cmd_addr) name reg

  unfoldable pub at_name : Option Bytes → Answer
  at_name none = unknown
  at_name (some name) = at_register name (lookup name s.reg_by_name)

  unfoldable pub command : Answer
  command = at_name (lookup (cmd_addr % 2 ^ 24) s.reg_by_addr)

-- A request or its answer: the bytes behind the header, and what the commands in them did.
pub record Reply : Type 0 where
  pub bytes : Bytes
  pub ignore : Bool
  pub after : Simulator

-- The loop over the commands; trailing bytes stay as they are.
unfoldable pub commands : Bytes → Simulator → Reply
unfolding be32 put_be32
commands (a ∷ b ∷ c ∷ d ∷ e ∷ f ∷ g ∷ h ∷ rest) s =
    let r = command (be32 a b c d) (be32 e f g h) s in
    let more = commands rest r.simulator in
    record more {
      bytes = a ∷ b ∷ c ∷ d ∷ (put_be32 r.data_word ++ more.bytes);
      ignore = r.ignored || more.ignore;
    }
commands rest s = record { bytes = rest; ignore = false; after = s }

-- pkt_size_limit
abbrev pub pkt_size_limit : ℕ
pkt_size_limit = (nreg + 1) * 8

-- One datagram: the answer that is sent, if one is.
unfoldable pub respond : Bytes → Simulator → Option Bytes × Simulator
respond datagram s =
    let buf = take pkt_size_limit datagram in
    let r = commands (drop 8 buf) s in
    if ltb (length buf) 32
    then (none, s)
    else ((if r.ignore then none else some (take 8 buf ++ r.bytes)), r.after)

-- What one poll brings: an error, an interrupt, a datagram; and what sendto throws, if it is called.
pub record Event : Type 0 where
  pub failure : Option Exn
  pub interrupted : Bool
  pub datagram : Option Bytes
  pub send_failure : Option Exn

-- A loop that ended: by an interrupt or the end of the events, or by an exception.
pub record Served : Type 0 where
  pub sent : List Bytes
  pub thrown : Option Exn
  pub final : Simulator

abbrev pub stopped : Option Exn → Simulator → Served
stopped thrown s = record { sent = []; thrown = thrown; final = s }

-- The end of a round that has no answer, or one; `more` is the rest of the loop.
unfoldable pub answer : Option Exn → Option Bytes → Simulator → Served → Served
answer send_failure none s more = more
answer none (some b) s more = record more { sent = b ∷ more.sent }
answer (some x) (some b) s more = stopped (some x) s

abbrev pub handle : Option Bytes → Simulator → Option Bytes × Simulator
handle none s = (none, s)
handle (some b) s = respond b s

-- The loop of exec, with the answers in the order they are sent in.
unfoldable pub serve : List Event → Simulator → Served
serve [] s = stopped none s
serve (e ∷ es) s =
    let r = handle e.datagram s in
    let rest = serve es r.1 in
    elim e.failure [
      | some x ↦ stopped (some x) s
      | none ↦ answer e.send_failure r.0 r.1 (if e.interrupted then stopped none r.1 else rest)
    ]

-- Simulator::exec
unfoldable pub exec : List Event → Simulator → Served
exec es s =
    let r = serve es (record s { running = true }) in
    if s.running
    then stopped (some (logic_error "Already running" [])) s
    else record r { final = record (r.final) { running = false } }

-- Simulator::operator[]
unfoldable pub register : Bytes → Simulator → Result SimReg
register name s = elim (lookup name s.reg_by_name) [
  | none ↦ err (runtime_error "No register " name)
  | some reg ↦ ok reg
]
