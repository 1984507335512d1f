-- ===== src/TaskServer/Order.antt =====
-- The tasks that are run, against those that were handed over.
use cpp100net.Common.{
  ◌≡◌, refl, ap, sym, ◌∙◌, Bool, true, false, Bool-cases, inl, inr, List, [], ◌∷◌, ◌++◌, append-nil,
  append_assoc, length, ◌==◌, arith,
}
use cpp100net.TaskServer.{
  TaskServer, create, add_task, move_all, take_tasks, run_all, run_tasks, run_rest,
}

-- The server with the application's state, all tasks handed over so far, and whether `OnRun` ended.
pub record System (T S : Type 0) : Type 0 where
  pub server : TaskServer T
  pub app : S
  pub added : List T
  pub over : Bool

pub move_all-append : {T : Type 0} (ts tasks : List T) → move_all ts tasks ≡ tasks ++ ts
unfolding move_all
move_all-append [] tasks = sym (append-nil tasks)
move_all-append (t ∷ ts) tasks =
    move_all-append ts (tasks ++ (t ∷ [])) ∙ append_assoc tasks (t ∷ []) ts

none_left : {A : Type 0} {xs : List A} → length xs == 0 ≡ true → xs ≡ []
none_left {xs = []} h = refl
none_left {xs = x ∷ xs} h = ground arith

module _ {T S : Type 0} (run : T → S → S) where
  -- Any thread adds a task; the server's thread takes, runs, or ends, which it does where it tests
  -- its loop, with no task taken.
  pub data Step (s : System T S) : System T S → Type 0 where
    adds :
        (t : T)
        → s.over ≡ false
        → Step s (record s { server = add_task t s.server; added = s.added ++ (t ∷ []) })
    takes : s.over ≡ false → Step s (record s { server = take_tasks s.server })
    runs :
        s.over ≡ false
        → Step s (record s {
          server = (run_tasks run s.server s.app).0;
          app = (run_tasks run s.server s.app).1;
        })
    ends :
        s.over ≡ false
        → s.server.tasks ≡ []
        → Step s (record s {
          server = (run_rest run s.server s.app).0;
          app = (run_rest run s.server s.app).1;
          over = true;
        })

  pub data Steps (s : System T S) : System T S → Type 0 where
    start_here : Steps s s
    then_step : {t u : System T S} → Steps s t → Step t u → Steps s u

  run_all-append :
      (xs ys : List T) (app : S) → run_all run (xs ++ ys) app ≡ run_all run ys (run_all run xs app)
  unfolding run_all
  run_all-append [] ys app = refl
  run_all-append (x ∷ xs) ys app = run_all-append xs ys (run x app)

  abbrev pub begun : S → System T S
  unfolding create
  begun app = record { server = create; app = app; added = []; over = false }

  -- The tasks run, then those taken, then those in the buffer are the tasks added.
  record InOrder (app0 : S) (s : System T S) : Type 0 where
    run_so_far : List T
    split : s.over ≡ false → s.added ≡ run_so_far ++ (s.server.tasks ++ s.server.tasks_buf)
    all_run : s.over ≡ true → s.added ≡ run_so_far
    effect : s.app ≡ run_all run run_so_far app0

  begun-InOrder : (app0 : S) → InOrder app0 (begun app0)
  unfolding create run_all
  begun-InOrder app0 = record {
    run_so_far = [];
    split = λ e. refl;
    all_run = λ e. cc;
    effect = refl;
  }

  take_tasks_same :
      (s : TaskServer T) → (take_tasks s).tasks ++ (take_tasks s).tasks_buf ≡ s.tasks ++ s.tasks_buf
  unfolding take_tasks
  take_tasks_same s = elim (Bool-cases (length s.tasks_buf == 0)) [
    | inl e ↦ rw e refl
    | inr e ↦
        rw (e, append-nil (move_all s.tasks_buf s.tasks)) (move_all-append s.tasks_buf s.tasks)
  ]

  run_tasks_lem :
      (s : TaskServer T) (app : S)
      → run_tasks run s app ≡ (record s { tasks = [] }, run_all run s.tasks app)
  unfolding run_tasks run_all
  run_tasks_lem s app = elim (Bool-cases (length s.tasks == 0)) [
    | inl e ↦
        let none_taken = none_left {xs = s.tasks} e in
        rw e (
          ap (λ l. (record s { tasks = l }, app)) none_taken
          ∙ ap (λ l. (record s { tasks = [] }, run_all run l app)) (sym none_taken))
    | inr e ↦ rw e refl
  ]

  Step-InOrder : (app0 : S) {s s' : System T S} → Step s s' → InOrder app0 s → InOrder app0 s'
  unfolding add_task run_rest
  Step-InOrder app0 {s} (adds t on) v = record {
    run_so_far = v.run_so_far;
    split = λ e. ap (λ l. l ++ (t ∷ [])) (v.split on) ∙ simp append_assoc;
    all_run = λ e. cc;
    effect = v.effect;
  }
  Step-InOrder app0 {s} (takes on) v = record {
    run_so_far = v.run_so_far;
    split = λ e. v.split on ∙ ap (λ l. v.run_so_far ++ l) (sym (take_tasks_same s.server));
    all_run = λ e. cc;
    effect = v.effect;
  }
  Step-InOrder app0 {s} (runs on) v =
      let ran = run_tasks_lem s.server s.app in
      record {
        run_so_far = v.run_so_far ++ s.server.tasks;
        split = λ e.
            v.split on
            ∙ (sym (append_assoc v.run_so_far s.server.tasks s.server.tasks_buf)
                ∙ ap
                    (λ (r : TaskServer T × S).
                      (v.run_so_far ++ s.server.tasks) ++ (r.0.tasks ++ r.0.tasks_buf))
                    (sym ran));
        all_run = λ e. cc;
        effect =
            ap (λ r. r.1) ran
            ∙ (ap (run_all run s.server.tasks) v.effect
                ∙ sym (run_all-append v.run_so_far s.server.tasks app0));
      }
  Step-InOrder app0 {s} (ends on idle) v = record {
    run_so_far = v.run_so_far ++ s.server.tasks_buf;
    split = λ e. cc;
    all_run = λ e. v.split on ∙ ap (λ l. v.run_so_far ++ (l ++ s.server.tasks_buf)) idle;
    effect =
        ap (run_all run s.server.tasks_buf) v.effect
        ∙ sym (run_all-append v.run_so_far s.server.tasks_buf app0);
  }

  Steps-InOrder : (app0 : S) {s : System T S} → Steps (begun app0) s → InOrder app0 s
  Steps-InOrder app0 start_here = begun-InOrder app0
  Steps-InOrder app0 (then_step before step) = Step-InOrder app0 step (Steps-InOrder app0 before)

  -- From a fresh task server, whatever tasks are added and whenever its thread takes, runs and ends:
  -- while it has not ended, the tasks added are those that were run, then those taken, then those in
  -- the buffer, and the state is what the tasks run make of it, in the order in which they were added;
  -- once it has ended, all tasks that were added have been run, each once and in that order.
  pub Steps-run_all :
      (app0 : S) (s : System T S)
      → Steps (begun app0) s
      → (s.over ≡ true → s.app ≡ run_all run s.added app0)
        × (s.over ≡ false
            → (done : List T) × (s.added ≡ done ++ (s.server.tasks ++ s.server.tasks_buf))
              × (s.app ≡ run_all run done app0))
  Steps-run_all app0 s steps =
      let v = Steps-InOrder app0 steps in
      (
        λ over. v.effect ∙ ap (λ l. run_all run l app0) (sym (v.all_run over)),
        λ on. (v.run_so_far, v.split on, v.effect),
      )
