-- ===== src/Lib.antt =====
-- The EPICS driver feed-core for LBNL FPGA boards: it talks UDP to a board, learns the registers from a
-- ROM in the board, and gives EPICS records access to them.
--
-- The parts and how they interact. The worker thread of a Device sends the reads and writes of
-- registers that records queue, several words in a packet, and matches the answers. At first it knows
-- three registers. When the first answers, the device reads the two ROM apertures; the ROM image holds
-- descriptors, one of them compressed JSON, and the JSON holds the table of all registers. Then each
-- record is attached to its register. A timeout, a request or an exception resets the device. The
-- simulator plays the board.
--
-- The files and the code:
--   Rom: src/util/rom.cpp, rom.h. `parse` and `prepare` are ROM::parse and ROM::prepare; `decode` and
--     `encode` are their switches; `prepare_words` is the overload on words.
--   JBlob: src/util/jblob.cpp, jblob.h. One function per yajl callback on the record Context;
--     `callback` is the table of them, `run` a parse, `parse` is JBlob::parse.
--   Device/Types: src/driver/device.h. Pointers to registers are indices into `regs`, where a register
--     keeps its place after it is deleted; Outcome is the device after a call, also after a throw.
--   Device/Register: DevReg::process, scan_interested and queue of src/driver/device.cpp.
--   Device/Send, Receive, Timeout: Device::handle_send, handle_process, do_timeout, handle_timeout.
--   Device/Reset, Inspect: Device::reset and handle_inspect.
--   Device/Worker: Device::handle_state and run, a round of which is a function of what poll brings.
--   Zpp: src/util/zpp.cpp: `compress` is zdeflate or zinflate, `codec_of` makes of the two what Rom and
--     Device/Inspect use.
--   Options: src/driver/devutil.cpp: split_pairs, get_pair and RecInfo::configure.
--   Support: the device support of records. Write, Read and Connect are src/driver/devreg.cpp, Watch is
--     devwatch.cpp, Signals is devsignal.cpp, Sync and Status are devmain.cpp; Attach is
--     init_common_base of devutil.cpp. Types has the record of EPICS as far as the driver changes it, a
--     RecInfo, and what a call returns; a buffer is the list of its elements, an integer element its
--     bit pattern. Calls of recGblSetSevr and db_post_events are listed in the record.
--   Sim: src/sim/simulator.cpp, simulator.h: SimReg, Simulator::add, exec and reg_write.
--   Sim/Hires, Rfs: src/sim/simulator_hires.cpp and simulator_rfs.cpp: the two simulated boards, which fill
--     waveforms behind reg_write.
--   Rf: src/rf/asub.c: the functions on bit masks.
--   Wire: no code of its own; a packet of the device against the simulator's answer, and a word on its
--     way there and back.
-- The files below these hold the theorems, and the Tests files runs of the code and the theorems at
-- concrete inputs. Prelude has the shared names: lists, integers, exceptions, maps, words.
--
-- Bounds and fuel. The loop of ROM::parse runs on fuel, one more than the number of bytes, and each
-- round takes four bytes. That of split_pairs has one more than the number of characters, and each
-- round takes one at least. That of zpp.cpp ends when zlib says so; its fuel is an argument. The
-- loops over a waveform of the boards have as many rounds as the waveform has words, and each round
-- stores one at least. The padding of a packet has eight rounds for at most eight words. All other
-- loops are structural. Machine words keep their wrap-around where the code can reach it; numbers
-- of registers and messages are unbounded.
--
-- Parameters: zlib (`Zlib`), yajl (`Yajl`), epicsParseInt32, epicsParseUInt32 and epicsParseDouble,
-- sendto (`net`), what poll and recvfrom bring (`Poll`, `Event`), the virtual functions of records
-- (`Records`), the arithmetic of double (`Doubles`), what EPICS makes of a record that is processed
-- (`process`) and recGblResetAlarms (`Hooks`), the sine waves and rand() of the simulated boards,
-- feedTimeout and feedUDPHeaderSize. A host of little endian is assumed where the code swaps bytes.
--
-- Not modelled: log output, the locks and the wake-up of the worker, the show functions; the calls
-- of the record database (getDevLnk, getInfo), the record for the mean round trip time, the debug
-- mask, the socket wrappers, the rest of the RF computations in C, which are in floating point for
-- the most part, the Python client, databases and displays.
pub mod Prelude
pub mod Rom
pub mod JBlob
pub mod Device
pub mod Rf
pub mod Sim
pub mod Options
pub mod Wire
pub mod Zpp
pub mod Support
