-- ===== src/Log.antt =====
-- depends/include/CellLog.hpp: the log, whose messages a thread of its own writes. The build without
-- _WIN32; the clock, the formatting of a message and `fopen` are arguments. The clock gives the time in
-- brackets of each reading, counted from the start, so that two messages may have different ones. A task runs as a
-- whole, with no other thread in between; the destructor is left out.
pub mod Turns
mod Tests
use cpp100net.Common.{
  ℕ, ◌+◌, Bool, true, false, Option, none, some, List, [], ◌∷◌, ◌++◌, length, leb, if◌then◌else◌,
}
use cpp100net.TaskServer
use cpp100net.TaskServer.{TaskServer, add_task, take_tasks, run_tasks}

-- The tasks that are handed to the thread: `EchoReal` of a message of some kind, and what `PError` hands
-- over, with the text of the error code.
pub data Task : Type 0 where
  echo_task : List ℕ → List ℕ → Task
  perror_task : List ℕ → List ℕ → Task

-- What was written to the file since it was opened, if it is open, and to the standard output; how often
-- the clock was read; and the tasks that were handed over by tasks that ran.
pub record Written : Type 0 where
  pub log_file : Option (List ℕ)
  pub out : List ℕ
  pub reads : ℕ
  pub added : List Task

pub record CellLog : Type 0 where
  pub written : Written
  pub task_server : TaskServer Task

-- The names of the kinds.
abbrev pub perror_kind : List ℕ
perror_kind = b'P' ∷ b'E' ∷ b'r' ∷ b'r' ∷ b'o' ∷ b'r' ∷ []

abbrev pub info_kind : List ℕ
info_kind = b'I' ∷ b'n' ∷ b'f' ∷ b'o' ∷ []

-- The part of `EchoReal` under its test of the file, which reads the clock.
abbrev pub log_line : (ℕ → List ℕ) → List ℕ → List ℕ → Written → Written
log_line clock kind text w = elim (w.log_file) [
  | none ↦ w
  | some file ↦ record w {
    log_file = some (file ++ (kind ++ (clock w.reads ++ text)));
    reads = w.reads + 1;
  }
]

-- `EchoReal`
unfoldable pub echo_real : (ℕ → List ℕ) → List ℕ → List ℕ → Written → Written
echo_real clock kind text w =
    let logged = log_line clock kind text w in record logged { out = logged.out ++ text }

-- A task is run: that of `PError` hands two more over.
unfoldable pub run_task : (ℕ → List ℕ) → Task → Written → Written
unfolding echo_real
run_task clock (echo_task kind text) w = echo_real clock kind text w
run_task clock (perror_task text code_text) w = record w {
  added = w.added ++ (echo_task perror_kind text ∷ echo_task perror_kind code_text ∷ []);
}

-- `Echo`, which `Info`, `Waring`, `Error` and `Debug` call with their kind.
unfoldable pub echo : List ℕ → List ℕ → CellLog → CellLog
echo kind text l = record l { task_server = add_task (echo_task kind text) l.task_server }

-- `PError`
unfoldable pub perror : List ℕ → List ℕ → CellLog → CellLog
perror text code_text l = record l {
  task_server = add_task (perror_task text code_text) l.task_server;
}

abbrev pub add_all : List Task → TaskServer Task → TaskServer Task
add_all [] s = s
add_all (t ∷ ts) s = add_all ts (add_task t s)

-- What the tasks that ran handed over is in the buffer of the thread.
abbrev pub collect : TaskServer Task × Written → CellLog
collect (s, w) = record { written = record w { added = [] }; task_server = add_all w.added s }

-- One turn of the thread's loop: it takes the tasks and runs them.
unfoldable pub turn : (ℕ → List ℕ) → CellLog → CellLog
unfolding run_task
turn clock l = collect (run_tasks (run_task clock) (take_tasks l.task_server) l.written)

abbrev pub close_file : List ℕ → CellLog → CellLog
close_file text l = elim (l.written.log_file) [
  | none ↦ l
  | some file ↦
      let told = echo info_kind text l in
      record told { written = record (told.written) { log_file = none } }
]

-- `setLogPath`: `date` is the suffix made from the clock, `opens` what `fopen` does, and the last three are
-- the messages. A path that does not fit into `logPath` with its end mark is a fault.
unfoldable pub set_log_path :
    List ℕ
    → Bool
    → List ℕ
    → (List ℕ → Bool)
    → List ℕ
    → (List ℕ → List ℕ)
    → (List ℕ → List ℕ)
    → CellLog
    → Option CellLog
unfolding echo
set_log_path log_name has_date date opens closed success failure l =
    let l1 = close_file closed l in
    let log_path = if has_date then log_name ++ date else log_name in
    let opened = record l1 { written = record (l1.written) { log_file = some [] } } in
    if leb (length log_path + 1) 256
    then some (
        if opens log_path
        then echo info_kind (success log_path) opened
        else echo info_kind (failure log_path) l1)
    else none
