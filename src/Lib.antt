-- ===== src/Lib.antt =====
-- AxSSH: a verification library for the core of the client (Rust, src/).
--
-- The program is a desktop client: Tabs hold an SSH, Telnet or serial session and a browser of
-- remote files. What is modelled here is the logic of its state and of its byte streams. Code that
-- is asynchronous is modelled by its steps, in every order that the theorems' lists of events
-- allow.
--
-- The part Sftp (Phase, Transfer, Table): src/app/state/sftp.rs and its types in src/app/state.rs.
-- A Table is the part of SftpBrowserState about transfers, each method that changes it is a
-- function of the same name (Table, Transitions, Conflicts, Roots, Selection), and Table/Events
-- makes each an event, so a history is a list of events: connection_monitor.rs and the user's
-- commands call the methods in any order. An identifier (Uuid) is a number, a map is an
-- association list, a set a list. A status text is kept as data before it is formatted. The rate
-- of bytes per second, which the source computes in floating point, is the parameter `rate`.
-- The part Sftp/Browser: the other part of SftpBrowserState, remote directories, their requests
-- and histories. A history is a list from its newest path, the back of the source's deque.
-- The part KnownHosts: src/ssh/known_hosts.rs. Keys, Base64 and HMAC are third-party, so they are
-- the parameter Crypto; there a text is the list of its bytes and white space
-- that of ASCII. Elsewhere a text is the list of its characters, and white space that of Unicode.
-- The part Patterns: `glob_match` of src/ssh/known_hosts.rs and `wildcard_matches` of
-- src/sftp/transfer/discovery.rs, which run one loop. An index is what is left from it on. The
-- loop gets fuel for every turn that it can take: a turn shortens what is left, or returns to a
-- shorter text at the last star, so a square of the lengths is enough. Out of fuel it returns none,
-- which is no answer; `wildcard_run` and `glob_run` keep that outcome.
-- The part Telnet: the frame buffer of src/telnet.rs. The library's names of command bytes are the
-- parameter OpCommand. Its loop gets the number of waiting bytes as fuel: each turn takes one.
-- The part Transfers: src/sftp/transfer/pipeline.rs (RequestWindow, with a poll's ready futures as
-- an argument) and the upload limiter of src/sftp/transfer/control.rs, whose atomic loads and
-- exchange are single moves that interleave.
-- The part TerminalDimensions: src/terminal_dimensions.rs.
-- The part Packets: PacketLimitedStream of src/sftp.rs, over an inner stream that is a list of
-- replies. Its loop gets as fuel what it has to do: a turn fills room, reads bytes or a length.
-- The part Sftp/Paths: the remote paths of src/sftp.rs, whose parts are kept from the last on.
-- The parts Transfers/Cache, Sizes and Quota: enforce_cache_quota of src/sftp/transfer/cache.rs.
-- The part TextEditing: src/app/text_editing.rs; the part SessionGroups: src/app/session_groups.rs.
-- The part Panes: src/app/panes.rs. The f32 arithmetic is the parameter Floats (Panes/Ratios), with
-- the laws that matter as FloatLaws; Panes/Histories makes the operations events of a history.
-- The part Workspace: src/config/workspace.rs, with each message of an error as a constructor. The
-- number of a Tab (Uuid) is a number and a text the list of its characters.
-- The part Latency: src/app/state/latency.rs; the clock is an argument.
-- The part Session: the connection of a terminal Tab, src/app/state/terminal.rs (Operations,
-- Attempts), src/app/state/transitions.rs with the monitors of connection_monitor.rs and
-- connection/direct.rs (Endings). Histories makes the operations events, in any order.
-- The part Prelude: the names shared by all; Tests: runs on small inputs.
--
-- Not modelled: network, file and operating-system I/O, the user interface and its bridges,
-- persistence of the configuration, credentials, the terminal emulator (third-party) and
-- rendering.
pub mod Prelude
pub mod TerminalDimensions
pub mod Patterns
pub mod Panes
pub mod Packets
pub mod Latency
pub mod Session
pub mod SessionGroups
pub mod TextEditing
pub mod Workspace
pub mod KnownHosts
pub mod Telnet
pub mod Transfers
pub mod Sftp
pub mod Tests
