-- ===== src/Lib.antt =====
-- pfnc is a file manager for the terminal with two panels, in Rust. This library models its core logic as
-- functions over an explicit state, and states what makes them correct.
--
-- The parts of the program, and how they work together. A backend (a local disk, SFTP, an archive) implements
-- the trait `Vfs` (crates/core/src/vfs.rs). The jobs of crates/core/src/job.rs copy, move, delete and synchronise
-- trees between two backends: they plan by walking the trees, then carry the plan out, and report progress and
-- ask a cancellation token at every step. The bytes of one file move through a `Transport`
-- (crates/core/src/transport.rs), a loop over chunks or the agent on the remote host (crates/agent-linux),
-- which speaks a small protocol over QUIC streams. The panels (crates/core/src/panel.rs), the text fields and
-- the connect form (crates/core/src/mode.rs) and the keys (crates/app) are the state of the screen. The loop of
-- crates/app/src/main.rs draws it (crates/tui), then takes a key of the input thread or an event of a job thread.
--
-- How the model is made. A part of the outside world is a type `W` of states, and a call that can read or change
-- it is a function `W → Result E A × W` (Effect.antt): `err` is an error of the program, `out_of_fuel` marks that
-- the fuel of the model was used up and is no result of the program. `?` is the bind, `let _ =` is `ignore`. Every
-- trait object is a record of such functions, so that two backends over one `W` may be the same backend. What a
-- cancellation token, a progress cell and the channel to the screen do is the record `Env` (Job.antt); another
-- thread may set the token whenever it is asked. Text is the list of its code points, a byte is a number, `u64` and
-- `usize` wrap around at 2^64 (Prelude/Words.antt), and a time is its number of nanoseconds. A panic is `none`
-- where the code can panic; sums wrap around, as in a release build. What only the machine can refuse is asked of it: the
-- thread of a new job in `with_thread` of Main.antt, the terminal after an editor in `init` of `EditorIo`. A `Vfs` is a
-- record of calls that return; the one panic inside of a backend, in `quic_agent`, is an `err` of Sftp/Quic.antt.
--
-- Which file models what:
-- - Prelude.antt, Effect.antt: what the others share; Effect/Hoare.antt has rules for what a call keeps.
-- - Vfs.antt, Vfs/Interface.antt: crates/core/src/vfs.rs, and `Read`, `Write` and `RemoteFileAgent`.
-- - Job.antt, Job/Walk.antt, Job/Item.antt, Job/Tasks.antt: `JobProgress`, `walk_for_copy`, `walk_for_delete`,
--   `apply_copy_item`, `apply_delete_item`, `copy_job`, `move_job`, `move_cross_backend` and `delete_job` of
--   crates/core/src/job.rs. Job/Walk/Tree.antt has the trees that a backend presents and the plans they call for.
-- - Job/Sync.antt, Job/Sync/Execute.antt: `build_sync_plan` and `execute_sync_plan`, with what they call.
-- - Job/Manager.antt: `JobManager`, its threads and its channel of events, as a step relation.
-- - Transport.antt: crates/core/src/transport.rs, both transports, `ProgressIo` and `negotiate_transport`.
-- - Panel.antt: crates/core/src/panel.rs.
-- - Editable.antt, Editable/Keys.antt: `EditableText`, and the editing keys of `handle_text_input_key`.
-- - Connect.antt, Keys.antt: `ConnectForm`, `handle_connect_key` and the checks of `submit_connect`.
-- - Keymap.antt: crates/app/src/keymap.rs.
-- - App.antt, App/Session.antt: crates/app/src/app.rs and the modes of crates/core/src/mode.rs. App/Browse.antt,
--   App/Start.antt, App/Dispatch.antt and App/Events.antt: crates/app/src/actions.rs, `handle_key` and
--   `handle_job_event` with all that they call; App/Tasks.antt: the closures of the jobs. App/Frame.antt,
--   App/Frame/Dialogs.antt, App/Frame/Edits.antt and App/Frame/Reactions.antt have the rules for what every key,
--   the editor and every event of a job keep. App/Panels.antt uses them for the panels, App/Modes.antt and
--   App/Whole.antt for the dialogs and the texts in them; App/Opens.antt is about what a new job can bring.
-- - Tui.antt, Tui/Rows.antt: crates/tui/src/panel.rs, the title and the rows of a panel.
-- - Main.antt: crates/app/src/main.rs and ui.rs. A pass of `run` is the function `turn`; the input thread, the threads
--   of the jobs and the loop together are the step relation `Happens`, in every order. Main/Start.antt and
--   Main/Restore.antt: the settings before and after; Main/Steps.antt, Main/Drawing.antt, Main/Turns.antt,
--   Main/Safety.antt and Main/Ends.antt: what holds along every run.
-- - Job/Tasks/Cancel.antt: the jobs when they start cancelled.
-- - Registry.antt: crates/app/src/registry.rs.
-- - Config.antt: crates/config/src/lib.rs.
-- - Archive.antt, Archive/Index.antt, Archive/Fs.antt: crates/vfs-archive, the index and the read-only backend.
-- - Agent/Protocol.antt, Agent/Server.antt, Agent/Client.antt: crates/agent-linux/src/protocol.rs and lib.rs.
-- - App/Editor.antt: crates/app/src/editor.rs, with `EditorIo` for the machine and the terminal.
-- - Sftp.antt: the quoting of the command lines in crates/vfs-sftp/src/lib.rs and deploy.rs. Sftp/Shell.antt
--   has the words that a POSIX shell reads from a line, Sftp/Hex.antt `to_hex` of crates/agent-linux/src/main.rs
--   and `from_hex`. Sftp/Session.antt has what is called of the crate ssh2, Sftp/HostKey.antt, Sftp/Auth.antt,
--   Sftp/Deploy.antt and Sftp/Quic.antt are the files hostkey.rs, auth.rs, deploy.rs and quic_agent.rs of
--   crates/vfs-sftp/src, Sftp/Connect.antt is `SftpFs::connect` and Sftp/Fs.antt the backend `SftpFs` of its lib.rs.
--   Sftp/Pipeline.antt: the two threads in `read_file` and `write_file` of quic_agent.rs with the channel between
--   them, as step relations.
-- - Local.antt, Local/Hash.antt: crates/vfs-local/src/lib.rs, the backend `LocalFs`.
-- - Fixtures.antt and the modules named Tests: concrete states, runs of the code, and uses of the theorems.
--
-- Fuel. The walks of the jobs take the depth of the tree, the climb to the root of an archive the length of the
-- longest path, and the loops over chunks the number of their turns; the theorems about them say how much is
-- enough, or hold for every amount. `write_all` retries an interrupted write, so that no amount of fuel is enough
-- for a writer that is interrupted for ever.
--
-- Parameters. The library of paths (camino) is `PathLib`; the order in which a `HashMap` gives its entries is a
-- function; toml and the calls of std::fs on the settings are `ConfigIo`, those of the local backend are `StdFs`,
-- and xxhash-rust is `Hasher`; `f64` and what else the state machine calls is `Libs`, and what opens a connection
-- or an archive is in `Threads`; QUIC streams (quinn) carry the bytes in order; ssh2 is `Session` and what it
-- returns, with `Host` for the machine it runs on; the codec of UTF-8 is `Utf8`; what the crates tar, zip and zstd
-- read from a file is a list of members.
--
-- Not modelled: the text of the dialogs, the bar of keys and the layout (crates/tui/src/dialog.rs, fkeys.rs and
-- layout.rs; the rows and the cursor of the dialogs are in Main.antt), the set-up of the terminal and of the log, the binaries of the agents, `connection_info`, which only
-- fills the help box, and the network side of `connect_quic_agent`.
pub mod Agent
pub mod App
pub mod Archive
pub mod Config
pub mod Connect
pub mod Editable
pub mod Effect
pub mod Fixtures
pub mod Job
pub mod Keymap
pub mod Keys
pub mod Local
pub mod Main
pub mod Panel
pub mod Prelude
pub mod Registry
pub mod Sftp
pub mod Transport
pub mod Tui
pub mod Vfs
