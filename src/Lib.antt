-- ===== src/Lib.antt =====
-- A verification of GalaxyBridge, the USB tethering driver: the RNDIS protocol, the selection of the
-- USB function, the control session, the worker and its datagrams, the command line, and the
-- privileged side: its frames, routes, interfaces, commands, processes, accounts and message loop.
--
-- How the parts interact. The unprivileged worker selects one device (Usb.Devices, src/usb/devices.rs),
-- reads its configuration (Usb.Layout, src/usb/layout.rs), and opens a session (Usb.Session,
-- src/usb/session.rs) whose requests and answers are RNDIS control messages (Rndis.Control,
-- src/rndis/control.rs). Then Ethernet frames travel as RNDIS packet messages (Rndis.Packet,
-- src/rndis/packet.rs) over USB, and as datagrams (Ipc, src/ipc.rs) between the worker (Worker,
-- src/worker.rs) and the supervisor. The supervisor (Service, src/service.rs) checks each frame, writes it to a BPF device or
-- reads it from there (Macos.Bpf, src/macos/bpf.rs), watches the routes and restores them at the end
-- (Macos.Route, src/macos/route.rs). It owns a pair of interfaces (Macos.Interface,
-- src/macos/interface.rs) and the worker's process (Macos.Process, src/macos/process.rs), runs the
-- commands of the system (Macos.Command, src/macos/command.rs), and trusts the account and the bundle of
-- the worker only after it has checked them (Macos.Identity, src/macos/identity.rs; Macos.Entitlements,
-- src/macos/worker_app.rs). It was started by a command line (Cli, src/cli.rs) that it writes
-- again when it enters the context of the worker (Macos.Context, src/macos/context.rs).
--
-- Conventions. A byte slice, a Vec of bytes and a text are lists of native numbers (Prelude.Slices,
-- Prelude.Text); a theorem that needs them to be bytes says so. Where the code reads the text of other
-- programs (Macos.Route.Reply, Macos.Route.Table, Macos.Identity, Macos.Entitlements), a text is the list
-- of its characters, each as its code point; Prelude.Strings, Prelude.Numbers and Prelude.Utf8 define the
-- functions of the standard library that it uses there. The crate's Result is Prelude.Outcome:
-- an error is a message, a kind of I/O error, or one of two marks that no Rust code returns, `panic` for
-- an index out of range and `out_of_fuel`. `usize` has 64 bits: checked additions fail at 2 ^ 64
-- (Prelude.Slices.checked_add), `u32` request numbers wrap at 2 ^ 32 (Usb.Session.next_id).
--
-- Files, with the functions of the source that they model:
--   Rndis/Wire: wire::u32_at, wire::words (src/rndis/mod.rs).
--   Rndis/Control/*: Request, Negotiation, Query (its `data` is `payload`), Notification, Indication and
--     Message of src/rndis/control.rs.
--   Rndis/Packet: encode, decode. Packet/Grammar is the independent description of a transfer, Packet/Bytes
--     that of what encode writes.
--   Usb/Devices: Filter::includes, matches, list, select, signature. Usb/Unique says what it is to be the
--     only element of a kind.
--   Usb/Layout: Layout::parse; Layout/Chain is its loop over the descriptors, Layout/Alternates its loop
--     over the alternate settings, Layout/Endpoints the type Endpoints.
--   Usb/Session: Session::exchange, next_id, keepalive, the handshake of Session::open, and drop.
--   Ipc: Message::decode, Message::encode, Backpressure::contains.
--   Cli: Mode::parse, Options::parse.
--   Macos/Bpf: Frame::permits, Device::write, Batch::decode. Bpf/Records describes a batch.
--   Macos/Context: Arguments::create, Transition::check. Context/Enter: Context::enter.
--   Macos/Command: Capture::drain, Runner::capture, text, the drop of a process. Command/Streams is about
--     one pipe, Command/Complete about the output.
--   Macos/Process: Worker, Diagnostic, Discovery. Process/Limit and Process/Sound hold its invariants.
--   Macos/Interface: Pair. Interface/Owned says who owns an interface, Interface/Lifetime follows a pair.
--   Macos/Identity: Record, Account, Caller.
--   Macos/Entitlements: Entitlements::check. Entitlements/Tags is the grammar of what it accepts.
--   Macos/Access: Descriptors::ceiling.
--   Macos/Bundle: Bundle::check.
--   Macos/Route/Reply: Snapshot::parse, Reply::parse. Macos/Route/Table: Table::has_vpn.
--   Macos/Route: Snapshot, Recovery::permits, Recovery::select; Route/Recovery is Recovery::restore.
--   Worker: the start of run, its two threads, its main loop and its result. Worker/Channel and
--     Worker/Transmit compare the threads with channels of frames.
--   Service: the loop of Supervisor::connect. Service/Supervise: Supervisor::run.
--     Service/Connect: what connect sets up, a worker that is dropped at once, and the drop of its Connection. Service/Clean puts the parts
--     of a session together.
-- The other files under these hold the proofs, and the Tests run the definitions on concrete input.
--
-- State and effects. A session's exchange takes a Script: the outcome of the send and one Event for each
-- round of its loop that starts before the deadline. The recovery takes a list of Look, the supervisor a
-- list of Round: what the system reports in one round of the loop, where a value that the code does not
-- ask for is not read. The state that the code keeps, and the calls that matter outside (routing
-- commands, frames written, datagrams sent, addresses activated), are the fields of Recovery and
-- Connection. In Usb.Layout.parse the descriptor library's reader of a configuration is an argument.
-- A command takes the list of what its two pipes deliver and of the rounds of its loop, a worker process
-- what its pipe and its `try_wait` answer, an interface a shell whose answer to a command may depend on all
-- that was run before, and a thread of the worker the turns of its loop. These lists end the loops: where
-- one ends first, the outcome is `none`, the worker process is as it then stands, or a wait is over, as it
-- is after the deadline.
--
-- Fuel. The loops over bytes take the length of the input as fuel. Each round of packet::decode takes at
-- least 58 bytes, one of Batch::decode at least 16 and one of the descriptor walk at least 2, so the
-- fuel is never used up. The loop over the worker's datagrams has the source's own bound of 128.
--
-- Not modelled: sockets and file descriptors (Channel, Device::open), the checks of
-- single files (PrivateFile, TrustedPath in src/macos/access.rs), spawning
-- processes (Worker::command, Worker::spawn) and what runs in a child before its program
-- (native/bpf.c), the escapes of Console::escape, the lock file of Supervisor::new, and the main
-- programs. They are calls of the system, one after another, with little logic of their own.
pub mod Prelude
pub mod Cli
pub mod Ipc
pub mod Macos
pub mod Rndis
pub mod Service
pub mod Usb
pub mod Worker
