-- ===== src/Lib.antt =====
-- The logic of RILL that every session passes through: the bytes of a terminal, the frames between a
-- client and the daemon, the history that the kernel keeps, and the agent's task and attention queue.
--
-- The parts, and how they meet: Parser models crates/vt-engine/src/parser.rs, the byte state
-- machine that turns a terminal's output into actions for the screen. Parser.State has its fields
-- and buffer helpers, Parser.Utf8 the decoding of characters, Parser.Sequences and Parser.Strings
-- one function per handler (`ground` is on_ground, `csi_param` is on_csi_param, and so on),
-- Parser.Step `step`, `feed` and `is_idle`. VtTypes models crates/rill-vt-types/src/lib.rs and
-- crates/vt-engine/src/color.rs, the values that the engine and its host share; Width models
-- crates/vt-engine/src/east_asian_width.rs, the tables of wide code points and marks with their
-- binary search. Screen models crates/vt-engine/src/screen.rs, what the parser's actions do to the
-- grid: Screen.State has the fields, Screen.Cell the grid as one list, Screen.Write `write_char`,
-- Screen.Dispatch the methods of the trait `Actions`, Screen.Erase, Lines, Modes, Sgr and Reply
-- what they call, Screen.Snapshot what the host reads, Screen.Repaint `repaint_bytes` and
-- Screen.Checkpoint the checkpoint's bytes. Screen.Valid has the screen's invariant. Engine models
-- crates/vt-engine/src/lib.rs, `VtEngine`: a parser whose actions drive a screen. Viewport models
-- crates/rill-host/src/scroll.rs, the view that the host paints over the rows that scrolled off the
-- engine's screen. Attach models crates/rill-attach/src/lib.rs, the frames of the attach socket:
-- Attach.Frame has `encode` and `decode`, Attach.Decoder the decoder that `push` feeds with what
-- the socket delivers. Ring models crates/rill-kernel/src/ring.rs, the bounded history of a
-- terminal's bytes, from which an attaching client is served checkpoints and deltas.
-- Kernel models the rest of crates/rill-kernel/src. Kernel.Session is session.rs:
-- Kernel.Session.State has the fields and the methods that do not touch the terminal, Input the
-- lease, `flush_input`, `poll_child` and `detach`, Output `drain_pty_at_most` and
-- `on_pty_readable`, Frames `on_frame`. Kernel.Graph is kernel.rs: Graph.State has the fields and
-- the log, Leaves the calls of one leaf, Nodes the containers, Steps the calls as a relation.
-- Kernel.Checkpoint, Kernel.Outcome and Kernel.Error are checkpoint.rs, journal.rs and error.rs.
-- The ring keeps what a session reads, the frames are those of Attach.
-- Transcript models crates/rill-kernel/src/transcript.rs, the ledger of semantic events, whose
-- terminal ranges are offsets of that history. Content models crates/rill-kernel/src/content.rs,
-- the timeline of what a session shows, with the retention policies that limit it and the capture
-- of a durable transcript. Task models crates/rill-orchestrate/src/task.rs, the agent's task with
-- its gates, its forks, its prompt queue, the replay adapter and the persistence, in which the toml
-- library is a parameter. Attention models crates/rill-orchestrate/src/attention.rs, the queue that
-- badges, mailbox and rollup read.
-- Automation models crates/rill-orchestrate/src/automation.rs, the actions with `validate` and the
-- bounded queue `ActionDispatcher`; Trust models the store of crates/rill-orchestrate/src/trust.rs.
-- Prelude has what they share: Boolean tests, lists over the native numbers, results, maps, texts.
--
-- How the code is read:
-- The build is the release build without the `mutate` feature: Cargo.toml sets no overflow checks for
-- it, so a `u16` sum that overflows wraps, where the dev build panics. The tab stop of
-- Screen.Dispatch's `do_execute` is such a sum, from column 65528 on. A method that changes `self` is a
-- function from the old value to the new one, with what it returns beside it; the calls of a
-- callback trait are a list of actions. Machine integers are natural numbers; a sum that saturates
-- is written with its limit, a `u64` counter that is advanced by one is a plain sum. A `Vec`, a
-- `VecDeque` and an array are lists, a `HashMap` is an association list of which only the lookups
-- are read. A text is a `String`, or its code points where the code reads inside it. A write past
-- the end of a grid, at which the code would panic, changes nothing here. A session's pseudo
-- terminal and its clock are the interface `Terminal`: each of its calls takes the state of the
-- machine behind that session and answers with the next one. Kernel.Session.Observed has the same
-- terminal with a record of its calls: the bytes that its reads returned, and the writes and sizes
-- that it accepted. What the environment variable of the
-- lease's grace says is a field of it.
--
-- Fuel: `feed` has two rounds for each byte and one more, since a byte is put back once at most;
-- `push` has one round more than its buffer has bytes, since each round takes a header of five.
-- `apply_sgr` has a round for each parameter, since a round takes one at least; the binary search
-- has one round more than its table has ranges, since each round leaves fewer. `write_u16` has fuel
-- for the five digits of a `u16`. The loop that finds a free id has one round more than the map has
-- entries; the loop of `collect_subtree` takes its rounds as an argument, since it does not end on
-- a cycle. `to_decimal` has fuel for one digit more than the number's value.
--
-- Not modelled: the two error variants that the engine never makes, the calls of the kernel that
-- wait for input, the redacted export of content, the context attachments of tasks,
-- the redaction and the configuration of the orchestrator, the daemon, and the host but for its
-- view. Sockets, pseudo terminals, files and threads are input and output and have no model here.
pub mod Prelude
pub mod Ring
pub mod Parser
pub mod VtTypes
pub mod Width
pub mod Screen
pub mod Engine
pub mod Viewport
pub mod Attach
pub mod Transcript
pub mod Content
pub mod Attention
pub mod Automation
pub mod Trust
pub mod Kernel
pub mod Task
