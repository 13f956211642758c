-- ===== src/Workflow/Flow/Dispatching.antt =====
-- What handing a service task to the agents leaves alone
-- (crates/service/src/logic/workflow/workflow.rs, `handle_service_task`).
use jiascheduler.Base.{
  ℕ, ◌≡◌, ◌∙◌, refl, String, List, [], ◌∷◌, Result, count_if, count_if-update_where, Option-cases,
  inl, inr, arith,
}
use jiascheduler.Base.State.{Keeps, bind-Keeps, ◌>>=◌, ◌>>◌}
use jiascheduler.Agent.BaseJob.{BaseJob}
use jiascheduler.Agent.Messages.{DispatchJobParams}
use jiascheduler.Workflow.Graph.{WorkflowNode, Task, StandardJob, CustomJob}
use jiascheduler.Workflow.Store.{Store, Fault, is_row}
use jiascheduler.Workflow.Dispatch.{
  custom_base_job, standard_base_job, dispatch_params, actual_code, Platform, Instance,
  actual_target, path_of, dispatch_with, parse_actual_args, set_node_args, push_all, dispatch_job,
  dispatch_custom_job, handle_service_task, handle_task, upload_of, require_endpoints,
}

-- The rows of a node in one run of a process.
abbrev pub row_count : String → String → String → Store → ℕ
row_count p r n s = count_if (is_row p r n) s.nodes

-- The rows of every node are as many as before.
abbrev pub SameRows : Store → Store → Type 0
SameRows s t = (p r n : String) → row_count p r n t ≡ row_count p r n s

-- Neither that nor the stream has changed.
abbrev pub Idle : Store → Store → Type 0
Idle s t = SameRows s t × (t.queue ≡ s.queue)

Idle-refl : (s : Store) → Idle s s
Idle-refl s = (λ p r n. refl, refl)

Idle-trans : (s t u : Store) → Idle s t → Idle t u → Idle s u
Idle-trans s t u h k = (λ p r n. k.0 p r n ∙ h.0 p r n, k.1 ∙ h.1)

abbrev pub AllIdle : {A : Type 0} → (Store → Result Fault A × Store) → Type 0
AllIdle = Keeps Idle

idle_bind :
    {A B : Type 0} (m : Store → Result Fault A × Store) (f : A → Store → Result Fault B × Store)
    → AllIdle m
    → ((a : A) → AllIdle (f a))
    → AllIdle (m >>= f)
idle_bind = bind-Keeps Idle Idle-refl Idle-trans

set_node_args-Idle : (node : WorkflowNode) → AllIdle (set_node_args node)
unfolding set_node_args
set_node_args-Idle node s =
    (λ p r n. count_if-update_where (is_row p r n) _ _ s.nodes (λ row. refl), refl)

parse_actual_args-Idle :
    (platform : Platform) (node : WorkflowNode) (code : String)
    → AllIdle (parse_actual_args platform node code)
unfolding parse_actual_args
parse_actual_args-Idle platform node code s = (λ p r n. ground arith, ground arith)

require_endpoints-Idle : (endpoints : List Instance) → AllIdle (require_endpoints endpoints)
require_endpoints-Idle [] s = Idle-refl s
require_endpoints-Idle (v ∷ rest) s = Idle-refl s

push_all-Idle :
    (platform : Platform) (node : WorkflowNode) (params : DispatchJobParams)
    (endpoints : List Instance)
    → AllIdle (push_all platform node params endpoints)
unfolding push_all
push_all-Idle platform node params endpoints s = Idle-refl s

dispatch_with-Idle :
    (platform : Platform) (node : WorkflowNode) (code : String) (job_of : String → BaseJob)
    → AllIdle (dispatch_with platform node code job_of)
unfolding dispatch_with
dispatch_with-Idle platform node code job_of =
    idle_bind (parse_actual_args platform node code) _ (parse_actual_args-Idle platform node code)
      λ node'.
        let endpoints = platform.find_instances (actual_target node') in
        idle_bind (require_endpoints endpoints >> set_node_args node') _
          (idle_bind (require_endpoints endpoints) _ (require_endpoints-Idle endpoints)
            (λ _. set_node_args-Idle node'))
          (λ _.
            push_all-Idle platform node'
              (dispatch_params platform node' (job_of (actual_code node'))) endpoints)

upload_of-Idle : (platform : Platform) (path : String) → AllIdle (upload_of platform path)
upload_of-Idle platform path s = (λ p r n. ground arith, ground arith)

dispatch_job-Idle :
    (platform : Platform) (node : WorkflowNode) (job : StandardJob)
    → AllIdle (dispatch_job platform node job)
unfolding dispatch_job
dispatch_job-Idle platform node job s = elim (Option-cases (platform.find_job job.eid)) [
  | inl none_ ↦ rw (dispatch_job, none_) (Idle-refl s)
  | inr (found, h) ↦ elim (Option-cases (platform.find_executor found.executor_id)) [
    | inl none_ ↦ rw (dispatch_job, h, none_) (Idle-refl s)
    | inr (cmd, k) ↦
        rw (dispatch_job, h, k)
          (idle_bind (upload_of platform found.upload_file)
            (λ file. dispatch_with platform node found.code (standard_base_job node found cmd file))
            (upload_of-Idle platform found.upload_file)
            (λ file.
              dispatch_with-Idle platform node found.code (standard_base_job node found cmd file))
            s)
  ]
]

dispatch_custom_job-Idle :
    (platform : Platform) (node : WorkflowNode) (job : CustomJob)
    → AllIdle (dispatch_custom_job platform node job)
unfolding dispatch_custom_job
dispatch_custom_job-Idle platform node job s =
    elim (Option-cases (platform.find_executor job.executor_id)) [
      | inl none_ ↦ rw (dispatch_custom_job, none_) (Idle-refl s)
      | inr (cmd, k) ↦
          rw (dispatch_custom_job, k)
            (idle_bind (upload_of platform (path_of job.upload_file))
              (λ file. dispatch_with platform node job.code (custom_base_job node cmd file))
              (upload_of-Idle platform (path_of job.upload_file))
              (λ file. dispatch_with-Idle platform node job.code (custom_base_job node cmd file)) s)
    ]

handle_task-Idle :
    (platform : Platform) (node : WorkflowNode) (task : Task)
    → AllIdle (handle_task platform node task)
handle_task-Idle platform node (Task.standard job) = dispatch_job-Idle platform node job
handle_task-Idle platform node (Task.custom job) = dispatch_custom_job-Idle platform node job
handle_task-Idle platform node Task.none_ = λ s. Idle-refl s

pub handle_service_task-Idle :
    (platform : Platform) (node : WorkflowNode) → AllIdle (handle_service_task platform node)
unfolding handle_service_task
handle_service_task-Idle platform node = handle_task-Idle platform node node.current_node.task
