-- ===== src/Lib.antt =====
-- A model of WireView Pro II's device daemon and of the formats it shares with the device.
--
-- The program: a daemon (src/bin/wireviewd.rs) watches for the device (src/discovery.rs) and owns
-- it through one task, the manager (src/manager.rs). The manager calls a backend
-- (src/backend.rs) that speaks the device's serial protocol, publishes its state, and serves the
-- commands of local clients (src/varlink.rs) with the messages of crates/wireview-ipc; the GUI
-- (crates/wireview-gui) is such a client. crates/wireview-core defines the types that all of them
-- share, and the codec of the device's configuration.
--
-- The files:
--   * Base: names of the libraries, tests and lists over native numbers, integers, text, the state
--     monad, sorting. Float: the operations of an `f64`, a parameter of all that computes with one.
--   * Domain: crates/wireview-core/src/domain.rs, the errors with their results, the telemetry, and
--     the connection states.
--   * Theme: crates/wireview-core/src/theme.rs, the slots of the flash.
--   * Config: crates/wireview-core/src/config.rs. Types, Ordinals, Masks, Numbers and Bytes are the
--     parts of the codec, Validate its checks, Encode and Decode the three layouts, Equality the
--     derived `PartialEq`, Mock the configuration of the mock, and Revision the revision of
--     src/manager.rs. Items reads and sets the items of a configuration document by their dotted
--     paths. Codes, Sets, Names, Layout, Checked, Assign and Lens prove.
--   * Protocol: src/protocol.rs, the command codes, the clear-faults command and the responses.
--   * History: crates/wireview-core/src/history.rs. Entry decodes one record, Walk goes through the
--     sectors with a visitor; Fuel, Visits and Parsed prove.
--   * Manager: src/manager.rs. State holds the fields of `Manager`, Backend what it calls. Display,
--     Connection, Timers, Dump, Commands, Mutation, Nvm and Dispatch have one function for each
--     method and for each arm of `handle_command`, which Reply and Try give their common shapes; a
--     method of the model has the name of the method, and an `async` block or an arm of a `match`
--     is a function of its own. Loop has the loop `run` as a step relation: one step is one turn of
--     `select!`. Invariant, Keeps, Discovery, Pauses, Frame, Answers, DumpKeeps, CommandKeeps and
--     Runs are about the invariant; the files whose names begin with Resume about the display
--     pause, and those with Sequence about the numbers of the published states; Outcomes, Rollback,
--     Reports, Refusals, Spacing, Exclusive, Backoff and Leases about the operations and the timers.
--   * Serial: `SerialBackend` of src/backend.rs. Port is the trait `SerialIo`, Errors the translation
--     of errors, Spi the pages of the flash, Transaction the replacement of a theme asset, Session
--     `connect` and the two ways to send a command, Device the other methods, which together are an
--     instance of the interface of Manager/Backend. Outcomes and Fuel are about any port; Firmware
--     states what a device does that follows the flash protocol, and Memory, Exchanges, Ranges,
--     Installs and Assets are about such a device; Frames is about one that keeps a configuration.
--   * Ipc: crates/wireview-ipc/src/lib.rs, the messages, the events, the errors, and the check of a daemon's
--     interface. Varlink: src/varlink.rs, where Service has the handle of the manager and the parsers
--     of the arguments, Methods and Settings the methods, and Guards is about what they refuse.
--   * Client: crates/wireview-gui/src/client.rs. Snapshot checks the telemetry of the daemon, Download
--     gets the history under a lease; Telemetry, Lease and Honest prove.
--   * Graph: crates/wireview-gui/src/graph.rs. Kinds has the kinds and the windows, State the buffer
--     with its operations; Times and Changes are about the times of the samples, Journal about which
--     samples are kept.
--   * Examples: a device with a clock, and runs at small inputs.
--
-- How the code is modelled. A method is a function from the manager to its result and the manager
-- after it. `D` is everything outside: the device and its port, the clock, and the cancellation
-- cells. A backend call may change it in any way, and so may a step of its own between two turns;
-- nothing is assumed of the backend, so the theorems hold for every device. The value of a method
-- is what its arm sends on the reply channel. Times are milliseconds, and
-- `Instant::now` reads the clock of `D`. The build checks overflow and aborts on it, so the
-- counters of sequences and sessions are unbounded; the saturating counters keep their bounds. The
-- walk over a sector of the log runs on as much fuel as the sector has slots, the read of a range of
-- the flash on one round for each byte, and so does the download of the history; that this is enough
-- is proved. All other recursion is on lists and numbers.
--
-- Not modelled: the channels of `ManagerHandle` and its cancellation of a read that is under way;
-- log messages; the reading and printing of JSON, opening a port and setting its lines, and the
-- fingerprint of the interface, which are parameters; the stream of events to a client; the
-- worker of the GUI's client, the frames of its graphs and its window; the command line, and all
-- that is input or output only. A panic of `expect` where a ready manager has no identity is an
-- error in the model.
pub mod Base
pub mod Domain
pub mod Float
pub mod Theme
pub mod Config
pub mod History
pub mod Protocol
pub mod Manager
pub mod Serial
pub mod Ipc
pub mod Varlink
pub mod Client
pub mod Graph
pub mod Examples
