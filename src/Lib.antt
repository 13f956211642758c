-- ===== src/Lib.antt =====
-- The verification library of jiascheduler: models of the agent that runs jobs, of the server's job
-- logic, teams and permissions and its workflow engine, of the link between the two, and of the
-- leader election, with the theorems that make them correct.
--
-- The program. An agent (automate/src) runs on every managed host. It takes messages that ask for a
-- job to be run, scheduled, supervised or killed, and reports to the server, over a link that
-- matches replies to requests (automate/src/bridge). The server's job logic
-- (crates/service/src/logic/job) checks a request to schedule a job, sends it to the agents over
-- HTTP, keeps what they report and calls back. Its workflow engine
-- (crates/service/src/logic/workflow) moves a process along the edges of its workflow: each message
-- of a Redis stream brings one node to `process_node`; a service task is dispatched to the agents,
-- and their reports come back to `update_node_status`, which sends the next messages. Teams and
-- the permissions of roles say who may do what (crates/service/src/logic/team.rs, state.rs). Of
-- several servers one leads (crates/leader-election).
--
-- The files.
--   Base: numbers, tests, lists, maps, results, texts, and the monad of methods that change a state
--     and may fail (Base/State). A `HashMap` is an association list; an error leaves what was
--     written before it.
--   Agent: automate/src.
--     JobAction, ScheduleType, RunStatus, ScheduleStatus, BaseJob: scheduler/types.rs; EnumTexts
--       the texts of the enums.
--     Messages: bridge/msg.rs. Executor: scheduler/executor.rs.
--     Contexts: the table of running jobs of `React` in scheduler/scheduler.rs, `can_execute`,
--       `set_execute_context`, `end_execute`, `kill_job`; Counting, Slots and Senders hold the
--       proofs. Slots takes these methods as the steps of any interleaving, since each holds the
--       lock of the table from its first line to its last.
--     React, Execution: `exec_job`, `wait_exec`, `exec` and its task; Places and Reports.
--     Schedules: `add_job_schedule`, `remove_job_schedule`. Timers: `start_timer`, `stop_timer`
--       and the handler of a tick; Places. Supervisors: `update_supervising`,
--       `start_supervising`, `stop_supervising`, `restart_supervising`.
--   Bridge: automate/src/bridge. Protocol: protocol.rs. Link: client.rs, the sending task and a
--     received frame, `recv`; Replies has two ends of a link.
--   Jobs: crates/service/src/logic/job/schedule.rs.
--     Tables: the rows of crates/entity/src/entity/job*.rs. Services: the records read out of
--       JSON, and the services called. Running: the row of a report, with Assignments and Board.
--     Callback: `eval` and `completed_callback`; Due. Report: `update_job_status`; Refines, Ended,
--       Delivered and Unscheduled, of which the last two join it to the agent.
--     Prepare: `check_schedule_type`, `get_job_actual_args` and the first part of `schedule_job`;
--       Push: the closures that send; Schedule: `schedule_job`, `dispatch_job`, `redispatch_job`.
--     Actions: `update_run_status`, `action`, and `can_dispatch_job` of job.rs; Takes, Stops.
--     Runnable: `dispatch_runnable_job_to_endpoint`; Sent.
--   Service: crates/service/src.
--     Teams: logic/team.rs; Saving, Removing and Adding an operation each, Memberships and Admins
--       what they keep, Creators all of them together, Rights who may write and read.
--     RateLimiter, Enforcer: state.rs, with the list of permissions of logic/role.rs.
--   Workflow: crates/service/src/logic/workflow.
--     Enums, Graph: types.rs. Condition: condition.rs. Tables, Store: the rows of
--       crates/entity/src/entity/workflow_process*.rs that the engine uses, and the stream.
--     Check, Dispatch, Flow, Status, Start, Removal, Rights: workflow.rs, `check_nodes`;
--       `parse_actual_args`, `dispatch_custom_job`, `dispatch_job`, `handle_service_task`;
--       `is_continue`, the other handlers and `process_node`; `update_node_status`;
--       `start_process`; `delete_process`; `can_write_workflow`, `can_write_timer`.
--   LeaderElection: crates/leader-election/src/lib.rs; Steps has electors that share a key and send
--     their commands one by one; Known, Lease, Race and Callbacks hold the proofs.
--   BatchDo: crates/utils/src/lib.rs, `async_batch_do`, as steps of its workers; Outputs, Values and
--     Ends. The pushes of Jobs and Workflow go through it.
--   The files named Tests hold runs at concrete inputs.
--
-- Bounds. Counters and depths of 32 bits wrap around (`% 2 ^ 32`), and the numbers of the requests
-- on a link at 64 bits. No definition needs fuel: every loop is over a list, and the endless ones
-- are steps or rounds over a schedule.
--
-- Parameters. Processes and their output, the bridge, the clock and the host (`Host`); the cron
-- scheduler (`JobScheduler`); jobs, executors, instances, files, the rendering of a job's code and
-- the HTTP call to an agent, and the order in which the workers of `async_batch_do` move
-- (`Platform`, `Sources`, `Network`); JSON, the HTTP client and the expressions of the callbacks
-- (`Services`); the JSON of the messages on a link (`to_vec`, `from_slice`); casbin, with what its
-- documentation says of each operation (`Casbin`); the answer of the enforcer (`can_manage_job`,
-- `Caller`) and of an insert of no rows (`insert_none`); the expression engine (`evaluate`), a
-- copy of another project in crates/expr.rs; the reading of a node out of a report and of a
-- version out of the database; the identifiers that nanoid draws and the instants of the clock, as
-- arguments.
--
-- Simplified. The database and the stream are taken to answer, and each method of the server runs
-- by itself: two that change the same rows at the same time are left out. The tables enforce their
-- unique keys. A JSON value that is only carried along is its text, a byte string a text, an exit
-- code a natural number, a `Duration` its nanoseconds. Some error texts leave out a value that they
-- interpolate, and the job logic the row numbers that it returns.
--
-- Not modelled. Queries and single writes of the database in the other logic of crates/service
-- (users, instances, tags, executors, lists and counts), the saving and release of workflows, the
-- loop of a supervisor and the choice of a handler by the agent, the HTTP interface (openapi), the
-- websockets and the comet server (automate/src/comet), SSH and SFTP, configuration and programs
-- (src), migrations and generated entities.
pub mod Base
pub mod Agent
pub mod Workflow
pub mod LeaderElection
pub mod BatchDo
pub mod Service
pub mod Jobs
pub mod Bridge
