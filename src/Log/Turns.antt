-- ===== src/Log/Turns.antt =====
-- What the thread of the log writes, turn by turn.
use cpp100net.Common.{
  ℕ, ◌+◌, ◌≡◌, refl, ap, sym, Option-cases, inl, inr, ◌∙◌, Option, none, some, List, [], ◌∷◌, ◌++◌,
  append-nil, append_assoc, length, ◌==◌, false, arith,
}
use cpp100net.TaskServer.{TaskServer, add_task, take_tasks, run_all, run_tasks}
use cpp100net.TaskServer.Order.{move_all-append}
use cpp100net.Log.{
  Task, echo_task, perror_task, Written, CellLog, perror_kind, echo_real, run_task, add_all,
  collect, turn, echo, perror,
}

-- The messages handed to the log, in order.
unfoldable pub log_all : List Task → CellLog → CellLog
unfolding echo perror
log_all [] l = l
log_all (echo_task kind text ∷ ts) l = log_all ts (echo kind text l)
log_all (perror_task text code_text ∷ ts) l = log_all ts (perror text code_text l)

-- What the file and the standard output get of them in the first turn: all but those of PError. Each line
-- has the next reading of the clock, the first the one of number `n`.
unfoldable pub lines : (ℕ → List ℕ) → ℕ → List Task → List ℕ
lines clock n [] = []
lines clock n (echo_task kind text ∷ ts) = (kind ++ (clock n ++ text)) ++ lines clock (n + 1) ts
lines clock n (perror_task text code_text ∷ ts) = lines clock n ts

unfoldable pub count_lines : List Task → ℕ
count_lines [] = 0
count_lines (echo_task kind text ∷ ts) = 1 + count_lines ts
count_lines (perror_task text code_text ∷ ts) = count_lines ts

unfoldable pub texts : List Task → List ℕ
texts [] = []
texts (echo_task kind text ∷ ts) = text ++ texts ts
texts (perror_task text code_text ∷ ts) = texts ts

-- What those of PError come to: two messages each.
unfoldable pub again : List Task → List Task
again [] = []
again (echo_task kind text ∷ ts) = again ts
again (perror_task text code_text ∷ ts) =
    echo_task perror_kind text ∷ echo_task perror_kind code_text ∷ again ts

-- The file after the messages, and the number of readings: without a file the clock is not read.
abbrev pub file_after : (ℕ → List ℕ) → List Task → ℕ → Option (List ℕ) → Option (List ℕ)
file_after clock ts n none = none
file_after clock ts n (some file) = some (file ++ lines clock n ts)

abbrev pub reads_after : List Task → ℕ → Option (List ℕ) → ℕ
reads_after ts n none = n
reads_after ts n (some file) = n + count_lines ts

-- The file, the output and the tasks handed over, after the tasks `ts`.
abbrev after : (ℕ → List ℕ) → List Task → Written → Written
after clock ts w = record {
  log_file = file_after clock ts w.reads w.log_file;
  out = w.out ++ texts ts;
  reads = reads_after ts w.reads w.log_file;
  added = w.added ++ again ts;
}

written_eq :
    {f g : Option (List ℕ)} {o p : List ℕ} {m n : ℕ} {a b : List Task}
    → f ≡ g
    → o ≡ p
    → m ≡ n
    → a ≡ b
    → ◌≡◌ {A = Written}
        (record { log_file = f; out = o; reads = m; added = a })
        (record { log_file = g; out = p; reads = n; added = b })
written_eq e h l k = cc

after-nil :
    (clock : ℕ → List ℕ) (n : ℕ) (o : Option (List ℕ))
    → (o ≡ file_after clock [] n o) × (n ≡ reads_after [] n o)
unfolding lines count_lines
after-nil clock n none = (refl, refl)
after-nil clock n (some f) = (ap some (sym (append-nil f)), omega arith)

-- One message of Echo more in front.
echoed :
    (clock : ℕ → List ℕ) (kind text : List ℕ) (ts : List Task) (w : Written)
    → after clock ts (echo_real clock kind text w) ≡ after clock (echo_task kind text ∷ ts) w
unfolding echo_real lines count_lines texts again
echoed clock kind text ts w = elim (Option-cases w.log_file) [
  | inl e ↦ rw e (written_eq refl (append_assoc w.out text (texts ts)) refl refl)
  | inr (f, e) ↦ rw e (
      written_eq
        (ap some (append_assoc f (kind ++ (clock w.reads ++ text)) (lines clock (w.reads + 1) ts)))
        (append_assoc w.out text (texts ts)) (omega arith) refl)
]

-- One of PError.
perror_run :
    (clock : ℕ → List ℕ) (text code_text : List ℕ) (ts : List Task) (w : Written)
    → after clock ts (run_task clock (perror_task text code_text) w)
      ≡ after clock (perror_task text code_text ∷ ts) w
unfolding run_task lines count_lines texts again
perror_run clock text code_text ts w = elim (Option-cases w.log_file) [
  | inl e ↦ rw e (written_eq refl refl refl (append_assoc w.added _ (again ts)))
  | inr (f, e) ↦ rw e (written_eq refl refl refl (append_assoc w.added _ (again ts)))
]

run_all-after :
    (clock : ℕ → List ℕ) (ts : List Task) (w : Written)
    → run_all (run_task clock) ts w ≡ after clock ts w
unfolding run_all run_task lines texts again
run_all-after clock [] w =
    let (file, reads) = after-nil clock w.reads w.log_file in
    written_eq file (sym (append-nil w.out)) reads (sym (append-nil w.added))
run_all-after clock (echo_task kind text ∷ ts) w =
    run_all-after clock ts (echo_real clock kind text w) ∙ echoed clock kind text ts w
run_all-after clock (perror_task text code_text ∷ ts) w =
    run_all-after clock ts (run_task clock (perror_task text code_text) w)
    ∙ perror_run clock text code_text ts w

add_all-append :
    (ts : List Task) (s : TaskServer Task)
    → add_all ts s ≡ record s { tasks_buf = s.tasks_buf ++ ts }
unfolding add_task
add_all-append [] s = ap (λ b. record s { tasks_buf = b }) (sym (append-nil s.tasks_buf))
add_all-append (t ∷ ts) s =
    add_all-append ts (add_task t s)
    ∙ ap (λ b. record s { tasks_buf = b }) (append_assoc s.tasks_buf (t ∷ []) ts)

-- Logging fills the buffer of the thread.
log_all-append :
    (ts : List Task) (l : CellLog)
    → log_all ts l ≡ record l {
      task_server = record (l.task_server) { tasks_buf = l.task_server.tasks_buf ++ ts };
    }
unfolding log_all add_task echo perror
log_all-append [] l =
    ap (λ b. record l { task_server = record (l.task_server) { tasks_buf = b } })
      (sym (append-nil l.task_server.tasks_buf))
log_all-append (echo_task kind text ∷ ts) l =
    log_all-append ts (echo kind text l)
    ∙ ap (λ b. record l { task_server = record (l.task_server) { tasks_buf = b } })
        (append_assoc l.task_server.tasks_buf (echo_task kind text ∷ []) ts)
log_all-append (perror_task text code_text ∷ ts) l =
    log_all-append ts (perror text code_text l)
    ∙ ap (λ b. record l { task_server = record (l.task_server) { tasks_buf = b } })
        (append_assoc l.task_server.tasks_buf (perror_task text code_text ∷ []) ts)

-- The log with nothing to do but the tasks in its buffer.
abbrev pub waiting : List Task → ℕ → Option (List ℕ) → List ℕ → CellLog
waiting ts n file out = record {
  written = record { log_file = file; out = out; reads = n; added = [] };
  task_server = record { tasks = []; tasks_buf = ts };
}

abbrev tasks_only : List Task → TaskServer Task
tasks_only ts = record { tasks = ts; tasks_buf = [] }

take_tasks_lem :
    (t : Task) (ts : List Task)
    → take_tasks (record { tasks = []; tasks_buf = t ∷ ts }) ≡ tasks_only (t ∷ ts)
unfolding take_tasks
take_tasks_lem t ts =
    let some_there : (length (t ∷ ts) == 0) ≡ false = ground arith in
    rw some_there (ap tasks_only (move_all-append (t ∷ ts) []))

run_tasks_lem :
    (run : Task → Written → Written) (t : Task) (ts : List Task) (w : Written)
    → run_tasks run (tasks_only (t ∷ ts)) w ≡ (tasks_only [], run_all run (t ∷ ts) w)
unfolding run_tasks
run_tasks_lem run t ts w =
    let some_there : (length (t ∷ ts) == 0) ≡ false = ground arith in rw some_there refl

-- One turn with the tasks `ts` in the buffer.
turn-waiting :
    (clock : ℕ → List ℕ) (ts : List Task) (n : ℕ) (file : Option (List ℕ)) (out : List ℕ)
    → turn clock (waiting ts n file out)
      ≡ waiting (again ts) (reads_after ts n file) (file_after clock ts n file) (out ++ texts ts)
unfolding turn take_tasks run_tasks again texts
turn-waiting clock [] n file out =
    let (same, reads) = after-nil clock n file in
    ap (λ w. record { written = w; task_server = record { tasks = []; tasks_buf = [] } })
      (written_eq same (sym (append-nil out)) reads refl)
turn-waiting clock (t ∷ ts) n file out =
    let w : Written = record { log_file = file; out = out; reads = n; added = [] } in
    ap (λ s. collect (run_tasks (run_task clock) s w)) (take_tasks_lem t ts)
    ∙ ap collect (run_tasks_lem (run_task clock) t ts w)
    ∙ ap (λ v. collect (tasks_only [], v)) (run_all-after clock (t ∷ ts) w)
    ∙ ap
        (λ s. record {
          written = record {
            log_file = file_after clock (t ∷ ts) n file;
            out = out ++ texts (t ∷ ts);
            reads = reads_after (t ∷ ts) n file;
            added = [];
          };
          task_server = s;
        })
        (add_all-append (again (t ∷ ts)) (tasks_only []))

again_twice : (ts : List Task) → again (again ts) ≡ []
unfolding again
again_twice [] = refl
again_twice (echo_task kind text ∷ ts) = again_twice ts
again_twice (perror_task text code_text ∷ ts) = again_twice ts

-- Messages are logged while nothing is waiting, and then the thread has two turns with nothing logged in
-- between. In the first, those of Echo are written in the order in which they were logged, each with its
-- kind and a reading of the clock of its own, the next one, to the file if one is open, and its text alone
-- to the standard output; nothing of PError is. In the second, the two messages that each PError has come
-- to are written, in order, with the readings that follow. Nothing is waiting after that. Without a file
-- the clock is not read.
pub turn-turn-log_all :
    (clock : ℕ → List ℕ) (ts : List Task) (n : ℕ) (file : Option (List ℕ)) (out : List ℕ)
    → (let n1 = reads_after ts n file in
        let file1 = file_after clock ts n file in
        let after1 = turn clock (log_all ts (waiting [] n file out)) in
        (after1 ≡ waiting (again ts) n1 file1 (out ++ texts ts))
        × (turn clock after1
            ≡ waiting []
                (reads_after (again ts) n1 file1)
                (file_after clock (again ts) n1 file1)
                ((out ++ texts ts) ++ texts (again ts))))
turn-turn-log_all clock ts n file out =
    let n1 = reads_after ts n file in
    let file1 = file_after clock ts n file in
    let first =
      ap (turn clock) (log_all-append ts (waiting [] n file out))
      ∙ turn-waiting clock ts n file out in
    (
      first,
      ap (turn clock) first
          ∙ turn-waiting clock (again ts) n1 file1 (out ++ texts ts)
          ∙ ap
              (λ b.
                waiting b (reads_after (again ts) n1 file1) (file_after clock (again ts) n1 file1)
                  ((out ++ texts ts) ++ texts (again ts)))
              (again_twice ts),
    )
