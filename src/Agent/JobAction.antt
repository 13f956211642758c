-- ===== src/Agent/JobAction.antt =====
-- automate/src/scheduler/types.rs: what a dispatched job message asks of the agent.
use jiascheduler.Base.{String, ◌==◌, if◌then◌else◌, [], ◌∷◌, Result, ok, err, format}

pub data JobAction : Type 0 where
  todo exec kill start_timer stop_timer start_supervising restart_supervising stop_supervising :
      JobAction

-- `impl TryFrom<&str> for JobAction`.
unfoldable pub try_from : String → Result String JobAction
try_from value =
    if value == "todo"
    then ok JobAction.todo
    else (if value == "exec"
        then ok JobAction.exec
        else (if value == "kill"
            then ok JobAction.kill
            else (if value == "start_timer"
                then ok JobAction.start_timer
                else (if value == "stop_timer"
                    then ok JobAction.stop_timer
                    else (if value == "start_supervising"
                        then ok JobAction.start_supervising
                        else (if value == "stop_supervising"
                            then ok JobAction.stop_supervising
                            else (if value == "restart_supervising"
                                then ok JobAction.restart_supervising
                                else err (format ("invalid job action " ∷ value ∷ [])))))))))

-- `impl fmt::Display for JobAction`.
unfoldable pub to_string : JobAction → String
to_string todo = "todo"
to_string exec = "exec"
to_string kill = "kill"
to_string start_timer = "start_timer"
to_string stop_timer = "stop_timer"
to_string start_supervising = "start_supervising"
to_string restart_supervising = "restart_supervising"
to_string stop_supervising = "stop_supervising"
