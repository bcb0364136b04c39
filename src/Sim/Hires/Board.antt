-- ===== src/Sim/Hires/Board.antt =====
-- src/sim/simulator_hires.cpp: the registers of the board's waveforms, and its reg_write.
use feed_core.Prelude.{ℕ, ◌+◌, List, [], ◌∷◌, Option, none, some, Bytes, codes}
use feed_core.Prelude.Exn.{Result, ok, ◌>>=◌}
use feed_core.Prelude.Maps.{lookup, insert, bytes_key}
use feed_core.Sim.{SimReg, Simulator, reg_write, register}
use feed_core.Sim.Hires.{Wf, Regs, process}

-- Simulator_HIRES: its waveforms in the order banyan, trace_odata, decay_data, abuf_data and
-- adcbuf_dataB, and the registers of its Simulator.
pub record Board (Double : Type 0) : Type 0 where
  pub waveforms : List (Wf Double)
  pub simulator : Simulator

-- A call of Simulator::operator[] for each name.
unfoldable pub all_found : List Bytes → Simulator → Result Simulator
all_found [] s = ok s
all_found (name ∷ names) s = register name s >>= (λ reg. all_found names s)

abbrev pub names_used : List Bytes
names_used =
    codes "banyan_reset"
    ∷ codes "banyan_status"
    ∷ codes "banyan_data"
    ∷ codes "trace_flip"
    ∷ codes "trace_status1"
    ∷ codes "trace_odata"
    ∷ codes "keep"
    ∷ codes "wave_samp_per"
    ∷ codes "decay_reset"
    ∷ codes "decay_ro_enable"
    ∷ codes "decay_data"
    ∷ codes "decaykeep"
    ∷ codes "abuf_reset"
    ∷ codes "abuf_ro_enable"
    ∷ codes "abuf_data"
    ∷ codes "adcbuf_reset"
    ∷ codes "adcbuf_full"
    ∷ codes "adcbuf_dataB"
    ∷ []

module _ {Double : Type 0} (start : Double) where
  unfoldable pub banyan : Wf Double
  banyan = record {
    reset = codes "banyan_reset";
    reset_bit = 0;
    status = codes "banyan_status";
    status_bit = 30;
    buffer = codes "banyan_data";
    valid = 0xfff;
    mask = none;
    decim = none;
    phase = start;
  }

  unfoldable pub trace_odata : Wf Double
  trace_odata = record {
    reset = codes "trace_flip";
    reset_bit = 0;
    status = codes "trace_status1";
    status_bit = 30;
    buffer = codes "trace_odata";
    valid = 0xffffff;
    mask = some (codes "keep");
    decim = some (codes "wave_samp_per");
    phase = start;
  }

  unfoldable pub decay_data : Wf Double
  decay_data = record {
    reset = codes "decay_reset";
    reset_bit = 0;
    status = codes "decay_ro_enable";
    status_bit = 0;
    buffer = codes "decay_data";
    valid = 0xffff;
    mask = some (codes "decaykeep");
    decim = none;
    phase = start;
  }

  unfoldable pub abuf_data : Wf Double
  abuf_data = record {
    reset = codes "abuf_reset";
    reset_bit = 0;
    status = codes "abuf_ro_enable";
    status_bit = 30;
    buffer = codes "abuf_data";
    valid = 0xffff;
    mask = none;
    decim = none;
    phase = start;
  }

  unfoldable pub adcbuf_data_b : Wf Double
  adcbuf_data_b = record {
    reset = codes "adcbuf_reset";
    reset_bit = 0;
    status = codes "adcbuf_full";
    status_bit = 0;
    buffer = codes "adcbuf_dataB";
    valid = 0xff;
    mask = none;
    decim = none;
    phase = start;
  }

  -- Simulator_HIRES::Simulator_HIRES, on the Simulator that it is built on.
  unfoldable pub new_board : Simulator → Result (Board Double)
  new_board s = all_found names_used s >>= (λ found. ok (record {
    waveforms = banyan ∷ trace_odata ∷ decay_data ∷ abuf_data ∷ adcbuf_data_b ∷ [];
    simulator = found;
  }))

-- The base class's reg_write on the register that a name refers to.
unfoldable pub write_named : Option SimReg → Bytes → ℕ → ℕ → Regs → Regs
write_named none name offset newval regs = regs
write_named (some reg) name offset newval regs = insert name (reg_write reg offset newval) regs

-- `rand n idx` is what rand() returns for the word at idx of the n-th waveform.
module _ {Double : Type 0} (advance : ℕ → Double → Double) (pulse : Double → ℕ → ℕ → ℕ → ℕ)
    (rand : ℕ → ℕ → ℕ) where
  -- The waveforms from the n-th on are processed in turn.
  unfoldable pub process_all : ℕ → List (Wf Double) → Regs → Option (List (Wf Double) × Regs)
  process_all n [] regs = some ([], regs)
  process_all n (wf ∷ wfs) regs = elim (process advance pulse (rand n) wf regs) [
    | none ↦ none
    | some r ↦ elim (process_all (n + 1) wfs r.1) [
      | none ↦ none
      | some rest ↦ some (r.0 ∷ rest.0, rest.1)
    ]
  ]

  -- Simulator_HIRES::reg_write
  unfoldable pub board_write : Bytes → ℕ → ℕ → Board Double → Option (Board Double)
  board_write name offset newval board =
      let regs = board.simulator.reg_by_name in
      elim (process_all 0 board.waveforms
        (write_named (lookup name regs) name offset newval regs)) [
          | none ↦ none
          | some r ↦
              let s = board.simulator in
              some (record { waveforms = r.0; simulator = record s { reg_by_name = r.1 } })
        ]
