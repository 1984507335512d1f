-- ===== src/TaskServer/Tests.antt =====
-- Tasks are numbers, and running one writes it down.
use cpp100net.Common.{ℕ, ◌≡◌, refl, true, false, List, [], ◌∷◌, ◌++◌}
use cpp100net.TaskServer.{create, add_task, take_tasks, move_all, run_tasks, run_rest, run_all}
use cpp100net.TaskServer.Order.{
  System, begun, Steps, start_here, then_step, adds, takes, runs, ends, Steps-run_all,
}

abbrev write_down : ℕ → List ℕ → List ℕ
write_down t seen = seen ++ (t ∷ [])

abbrev at_end : System ℕ (List ℕ)
at_end = record {
  server = record { tasks = []; tasks_buf = 9 ∷ [] };
  app = 7 ∷ 8 ∷ 9 ∷ [];
  added = 7 ∷ 8 ∷ 9 ∷ [];
  over = true;
}

-- Two tasks are run; a third comes before the end.
at_end-Steps : Steps write_down (begun write_down []) at_end
unfolding create add_task take_tasks move_all run_tasks run_rest run_all
at_end-Steps =
    then_step
      (then_step
        (then_step
          (then_step (then_step (then_step start_here (adds 7 refl)) (adds 8 refl)) (takes refl))
          (runs refl))
        (adds 9 refl))
      (ends refl refl)

Steps-run_all_example :
    (at_end.over ≡ true → at_end.app ≡ run_all write_down (7 ∷ 8 ∷ 9 ∷ []) [])
    × (at_end.over ≡ false
        → (done : List ℕ) × (at_end.added ≡ done ++ ([] ++ (9 ∷ [])))
          × (at_end.app ≡ run_all write_down done []))
Steps-run_all_example = Steps-run_all write_down [] at_end at_end-Steps
