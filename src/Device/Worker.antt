-- ===== src/Device/Worker.antt =====
-- Device::handle_state and one round of the loop of run.
use feed_core.Prelude.{
  ℕ, ◌+◌, ◌*◌, Bool, true, false, not, ◌||◌, ◌&&◌, List, [], ◌∷◌, ◌++◌, Option, none, some,
  if◌then◌else◌, length, Bytes, take, map, ltb,
}
use feed_core.Prelude.Words.{add32}
use feed_core.Prelude.Exn.{
  Exn, runtime_error, logic_error, out_of_range, socket_error, assertion, fuel_out,
}
use feed_core.Device.Types.{
  DevState, error, idle, searching, inspecting, running, RegState, invalid, in_sync, reading,
  writing, inprogress, Device, Interest, in_key_order, on_connect, current_changed, reg_at, reg_id,
  reg_rom2, reg_rom16, nreg, Outcome, done, throws, ◌>>>◌,
}
use feed_core.Device.Register.{queue}
use feed_core.Device.Send.{SendResult, handle_send}
use feed_core.Device.Receive.{handle_process}
use feed_core.Device.Timeout.{handle_timeout}
use feed_core.Device.Reset.{reset}
use feed_core.Device.Inspect.{Records}

abbrev pub is_in_sync : RegState → Bool
is_in_sync in_sync = true
is_in_sync invalid = false
is_in_sync reading = false
is_in_sync writing = false

abbrev pub same_state : DevState → DevState → Bool
same_state error error = true
same_state idle idle = true
same_state searching searching = true
same_state inspecting inspecting = true
same_state running running = true
same_state _ _ = false

-- The numbers of the interests, in the order of an iteration over the multimap.
unfoldable pub numbers : List Interest → List ℕ
numbers xs = map (λ x. x.0) (in_key_order 0 xs [])

module _ (inspect : Device → Outcome) where
  -- The switch of handle_state.
  unfoldable pub advance : DevState → Device → Outcome
  advance error d = done d
  advance idle d = elim d.peer_name [
    | [] ↦ done d
    | c ∷ cs ↦ done (record d { current = searching })
  ]
  advance searching d =
      if is_in_sync (reg_at d reg_id).state
      then (queue reg_rom2 false none d >>> queue reg_rom16 false none >>> λ d'.
          done (record d' { current = inspecting }))
      else if not (inprogress (reg_at d reg_id).state)
      then queue reg_id false none d
      else done d
  advance inspecting d =
      if is_in_sync (reg_at d reg_rom2).state && is_in_sync (reg_at d reg_rom16).state
      then (inspect d >>> λ d'.
          done (record d' { scans = d'.scans ++ on_connect ∷ []; current = running }))
      else done d
  advance running d = done d

  -- Device::handle_state, with handle_inspect as `inspect`.
  unfoldable pub handle_state : Device → Outcome
  handle_state d =
      if d.reset_requested || d.error_requested
      then done (reset d.error_requested d)
      else (advance d.current d >>> λ d'. done (
          if same_state d.current d'.current
          then d'
          else record d' { scans = d'.scans ++ current_changed ∷ [] }))

-- A datagram, and whether it comes from the device.
pub record Datagram : Type 0 where
  pub bytes : Bytes
  pub from_peer : Bool

-- What poll and the reads behind it bring in one round.
pub record Poll : Type 0 where
  pub now : ℕ
  pub failure : Option Exn
  pub datagrams : List Datagram
  pub receive_error : Option ℕ
  pub writable : Bool

abbrev pub is_nil : List ℕ → Bool
is_nil [] = true
is_nil (x ∷ xs) = false

-- pkt_size_limit+16, the size of a receive buffer.
abbrev pub rx_size : ℕ
rx_size = (nreg + 1) * 8 + 16

-- Whether a handler of std::exception catches it.
abbrev pub is_exception : Exn → Bool
is_exception (runtime_error s ns) = true
is_exception (logic_error s ns) = true
is_exception out_of_range = true
is_exception (socket_error code) = true
is_exception (assertion what) = false
is_exception fuel_out = false

module _ (feed_timeout header_size : ℕ) (net : ℕ → SendResult) (records : Records)
    (inspect : Device → Outcome) where
  unfoldable pub complete_list : List ℕ → Device → Outcome
  complete_list [] d = done d
  complete_list (i ∷ is) d = records.complete i d >>> complete_list is

  -- The callbacks between two polls: those of the completed operations, and once after a reset that
  -- ended in Error all of them.
  unfoldable pub run_callbacks : Device → Outcome
  run_callbacks d0 =
      let d = record d0 { records = [] } in
      (if same_state d.current error && (is_nil d0.records && d.after_reset)
        then (complete_list (numbers d.reg_interested) d >>> λ d'.
            done (record d' { after_reset = false }))
        else done d)
      >>> complete_list d0.records

  -- One recvfrom, into a buffer of rx_size bytes.
  unfoldable pub count_datagram : Datagram → Device → Device
  count_datagram g d = record d {
    cnt_recv = add32 d.cnt_recv 1;
    cnt_recv_bytes = add32 d.cnt_recv_bytes (header_size + length (take rx_size g.bytes));
    cnt_ignore = if g.from_peer then d.cnt_ignore else add32 d.cnt_ignore 1;
  }

  unfoldable pub count_datagrams : List Datagram → Device → Device
  count_datagrams [] d = d
  count_datagrams (g ∷ gs) d = count_datagrams gs (count_datagram g d)

  -- The reads of one round: one buffer for each message, and an error only behind the datagrams.
  unfoldable pub receive : Poll → Device → Outcome
  receive poll d =
      let taken = take (length d.inflight) poll.datagrams in
      let d' = count_datagrams taken d in
      elim poll.failure [
        | some e ↦ throws e d
        | none ↦
            if ltb (length poll.datagrams) (length d.inflight)
            then elim poll.receive_error [
              | some code ↦ throws (socket_error code) d'
              | none ↦ done d'
            ]
            else done d'
      ]

  unfoldable pub process_datagrams : List Datagram → Device → Outcome
  process_datagrams [] d = done d
  process_datagrams (g ∷ gs) d =
      (if g.from_peer then handle_process feed_timeout (take rx_size g.bytes) d else done d)
      >>> process_datagrams gs

  -- The body of the loop, inside its try.
  unfoldable pub round_body : Poll → Device → Outcome
  round_body poll d0 =
      (if same_state d0.current error || same_state d0.current idle
        then done d0
        else handle_send feed_timeout net d0)
      >>> run_callbacks
      >>> receive poll
      >>> (λ d. done (record d {
        loop_time = poll.now;
        want_to_send = if poll.writable then false else d.want_to_send;
      }))
      >>> process_datagrams (take (length d0.inflight) poll.datagrams)
      >>> handle_timeout
      >>> handle_state inspect

  -- The handler of std::exception.
  unfoldable pub caught : Exn → Device → Device
  caught e d =
      let d' = reset false (record d { cnt_err = add32 d.cnt_err 1 }) in
      record d' { current = error; last_message = some e; scans = d'.scans ++ current_changed ∷ [] }

  -- A failed assertion ends the program instead.
  unfoldable pub recover : Exn → Device → Outcome
  recover e d = if is_exception e then done (caught e d) else throws e d

  -- One round of Device::run.
  unfoldable pub run_round : Poll → Device → Outcome
  run_round poll d = elim (round_body poll d) [ done d' ↦ done d' | throws e d' ↦ recover e d' ]

  -- Device::run, until runner_stop or the end of the polls.
  unfoldable pub run : List Poll → Device → Outcome
  run [] d = done d
  run (poll ∷ polls) d =
      let more = run_round poll d >>> run polls in if d.runner_stop then done d else more
