-- ===== src/Lib.antt =====
-- trsync keeps a folder of the disk and a space of a Tracim server alike. This library models the
-- synchronizer with its daemon and its windows, the packages core, trsync, manager, configure and monitor
-- of the repository, and proves what its parts do.
--
-- The program at work: on start, `Runner` (trsync/src/run2.rs) reads what has changed on each side since
-- the last run (trsync/src/sync), resolves conflicts by path and lets the operator work the changes off, in
-- rounds, since a content may come before its parent. Then a watcher of the folder and one of the server
-- send events. Those of the folder pass a reducer (trsync/src/local/reducer.rs). The operator
-- (trsync/src/operation/operator.rs) runs one or two executors for each event, drops events that an earlier
-- executor announced, and applies the state changes that they ask for to the state (trsync/src/state).
-- The daemon (manager/src/daemon.rs) runs one such synchronization for each space of its configuration. The
-- user edits that in one window (configure/src), which sends it to the daemon, and answers the
-- synchronizations in another (monitor/src), through the channels of core/src/sync.rs and core/src/error.rs.
--
-- Which file models what:
--   Base           equality, lists, results and hash maps as the source uses them
--   Core           core/src: contents, changes, errors, labels; Core/Client is `Tracim` of core/src/client.rs and
--                  Core/Client/Account its `Client`, Core/Client/Live opens the stream of live messages,
--                  Core/Config is core/src/config.rs, Core/Instance the addresses of core/src/instance.rs,
--                  Core/Job core/src/job.rs
--   Ignore         trsync/src/ignore.rs; Ignore/Decimal prints and parses its numbers,
--                  Ignore/Utf8 is the bytes of its text
--   Event          trsync/src/event, with the events of the local watcher
--   Local/Reducer  `next_event` and `recv` of `LocalReceiverReducer`; `react` is the match of the inner loop,
--                  Local/Reducer/Stream calls `recv` again and again
--   Local/Watcher  `digest_event` and `listen` of trsync/src/local/watcher.rs
--   Remote         `listen`, `proceed_event_lines` and `proceed_remote_event` of trsync/src/remote/watcher.rs
--   State          the trait `State`, with `change` and `forgot_with_children`; State/Path is the walk up the
--                  parents, State/Memory and State/Disk are the two implementations
--   Operation      Host is what the source only calls: the file system and the server's client. Exec is
--                  the way an executor runs, Disk and Remote are the executors, Operator is the operator;
--                  Operator/Echo, Operator/Swallowed, Operator/RemovedFolder and Operator/MovedFolder put it
--                  together with the watcher of the folder and the reducer
--   Sync           `StartupSyncResolver`, `LocalSync` and `RemoteSync`
--   Runner         `OperateChanges::operate`, `Runner::sync_` and `Runner::operate`; Runner/Start is `Runner::sync`
--                  and `Runner::run`, Runner/Process the function `run`, Runner/Politic core/src/sync.rs,
--                  Runner/Monitor core/src/activity.rs, Runner/Context trsync/src/context.rs; Runner/Worked adds
--                  to an operator the list of what it has operated
--   Manager        which synchronizations the daemon of manager/src/daemon.rs starts and stops, and what a start
--                  prepares; Manager/Client is manager/src/client.rs, Manager/Run the loop over messages
--   Configure      the state of the window of configure/src; Configure/App is what a reaction works on,
--                  Configure/Window the two inner windows and a frame, Configure/React `react` and `update`,
--                  Configure/Jobs configure/src/job
--   Monitor        a frame of the window of monitor/src/app.rs; Monitor/Answers is the answers of a job's
--                  channels, step by step, a failing request for the window included, Monitor/Icon the icon of systray/src/linux.rs, Monitor/Unseen the errors
--   Tests          the theorems at concrete inputs
--
-- An object that the source changes is passed from call to call: the state, the world of a host, and the
-- events to ignore. A result of the source is an `Outcome`; messages are left out. A path is the list of its
-- components, numbers are natural, an `i32` being its pattern of 32 bits.
--
-- Parameters: the file system, the server, SQLite, the channels, the HTTP library with its decoding of
-- JSON, the ini format and the key ring are no code of the program. What the user does in a window
-- while it is drawn is the argument of a frame. Theorems about the disk state assume of
-- a statement what SQL says of it. The state is an interface that the operator takes, and the operator is
-- one that the runner takes.
--
-- Fuel: recursion that the source does not bound is on fuel, and gives `none` only when that is spent. For
-- `forgot_with_children` it is above the depth of the tree, for the walk up the parents above the number of
-- contents, for `recv` above the number of events to come, each of its rounds taking one of them, for the rounds of
-- the startup above the number of changes, for `get_content_path` above the depth of the content. Where parents form a cycle, the walks
-- of the source do not return, and no fuel is enough.
-- The loops of `run` of trsync/src/run2.rs and of the daemon take one unit for an attempt, and have no bound
-- of their own.
--
-- Not modelled: threads and signals but as the values that a turn of a loop reads; the forwarding threads,
-- which only pass on what they receive; how the windows are drawn and how they
-- and the task bar are started; the former runner (trsync/src/run.rs) and files whose code is commented out.
pub mod Base
pub mod Core
pub mod Event
pub mod Ignore
pub mod Local
pub mod Remote
pub mod State
pub mod Operation
pub mod Sync
pub mod Runner
pub mod Manager
pub mod Configure
pub mod Monitor
pub mod Tests
