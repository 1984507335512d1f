-- ===== src/TaskServer.antt =====
-- depends/include/CellTask.hpp: a thread that runs the tasks that others hand to it. A task is a
-- value, and `run` says what it does to the application's state.
pub mod Order
mod Tests
use cpp100net.Common.{ℕ, Bool, true, false, List, [], ◌∷◌, ◌++◌, length, ◌==◌, if◌then◌else◌}

pub record TaskServer (T : Type 0) : Type 0 where
  pub tasks : List T
  pub tasks_buf : List T

unfoldable pub create : {T : Type 0} → TaskServer T
create = record { tasks = []; tasks_buf = [] }

module _ {T : Type 0} where
  unfoldable pub add_task : T → TaskServer T → TaskServer T
  add_task t s = record s { tasks_buf = s.tasks_buf ++ (t ∷ []) }

  -- The loop that moves the buffer, one task at a time.
  unfoldable pub move_all : List T → List T → List T
  move_all [] tasks = tasks
  move_all (t ∷ ts) tasks = move_all ts (tasks ++ (t ∷ []))

  -- The first part of the loop of `OnRun`.
  unfoldable pub take_tasks : TaskServer T → TaskServer T
  unfolding move_all
  take_tasks s =
      if length s.tasks_buf == 0
      then s
      else record s { tasks = move_all s.tasks_buf s.tasks; tasks_buf = [] }

  module _ {S : Type 0} (run : T → S → S) where
    unfoldable pub run_all : List T → S → S
    run_all [] app = app
    run_all (t ∷ ts) app = run_all ts (run t app)

    -- The rest of the loop of `OnRun`: with no task it sleeps.
    unfoldable pub run_tasks : TaskServer T → S → TaskServer T × S
    unfolding run_all
    run_tasks s app =
        if length s.tasks == 0 then (s, app) else (record s { tasks = [] }, run_all s.tasks app)

    -- What `OnRun` does after its loop.
    unfoldable pub run_rest : TaskServer T → S → TaskServer T × S
    unfolding run_all
    run_rest s app = (s, run_all s.tasks_buf app)
