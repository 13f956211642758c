-- ===== src/Agent/React.antt =====
-- automate/src/scheduler/scheduler.rs: the state of `React`, and the monad of its methods.
-- The state is behind `Arc<Mutex<…>>`, so that every clone of a `React` shares it; an error leaves
-- what was written before it. What the state of other threads does meanwhile is left to
-- `Agent/Contexts/Slots.antt`.
use jiascheduler.Base.{ℕ, String, List, Result}
use jiascheduler.Agent.Messages.{DispatchJobParams, UpdateJobParams}
use jiascheduler.Agent.BaseJob.{Output}
use jiascheduler.Agent.Executor.{Command}
use jiascheduler.Agent.Contexts.{Contexts, Error}

-- `refused` carries an error of the table of running jobs; `panicked` is a panic of the thread.
pub data Fault : Type 0 where
  failed : String → Fault
  refused : Error → Fault
  panicked : Fault

-- `sent` holds the update messages handed to the bridge, oldest first; `spawned` the runs that
-- were given to a task of their own, with the channel of each, oldest first.
pub record React : Type 0 where
  pub contexts : Contexts
  pub sent : List UpdateJobParams
  pub spawned : List DispatchJobParams

-- What is not the code's own: the command that runs, the bridge, the clock and the host.
pub record Host : Type 0 where
  -- `Cmd::wait_with_output`: the result of a process, or the error's text.
  pub process : Command → Result String Output
  -- `Bridge::send_msg`: whether the server took the message.
  pub send : UpdateJobParams → Result String (Unit {0})
  pub started : ℕ
  pub ended : ℕ
  pub namespace : String
  pub local_ip : String

abbrev pub M : Type 0 → Type 0
M A = React → Result Fault A × React
