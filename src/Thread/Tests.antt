-- ===== src/Thread/Tests.antt =====
-- A thread with the callbacks 1 for `onRun` and 2 for `onDestory`, closed before it does anything.
use cpp100net.Common.{ℕ, ◌<◌, ◌≤◌, ◌≡◌, ◌≢◌, refl, ◌⊎◌, true, false, none, some, [], ◌∷◌}
use cpp100net.Thread.{ended, create, start, close, end_close, on_work}
use cpp100net.Thread.Life.{
  outside, blocked, returned, System, started, worked, closed, Step, works, closes, returns, Steps,
  start_here, then_step,
}
use cpp100net.Thread.Close.{Close-calls}
use cpp100net.Thread.End.{steps_left, Close_returns}
use cpp100net.Thread.Deadlock.{exit-IsDeadlock}

abbrev fresh : System ℕ
fresh = started none (some 1) (some 2)

abbrev in_close : System ℕ
in_close = closed fresh

-- The thread has run up to its call of `wakeup`, which is done.
abbrev done : System ℕ
done = worked (worked (worked (worked (worked in_close))))

abbrev over : System ℕ
unfolding create start close on_work
over = record done {
  thread = record done.thread { sem = record done.thread.sem { n_wakeup = 0 } };
  closer = returned;
}

over-Steps : Steps false fresh over
unfolding create start close on_work end_close
over-Steps =
    then_step
      (then_step
        (then_step
          (then_step
            (then_step (then_step (then_step start_here (closes refl)) (works (λ e. cc) (λ e. cc)))
              (works (λ e. cc) (λ e. cc)))
            (works (λ e. cc) (λ e. cc)))
          (works (λ e. cc) (λ e. cc)))
        (works (λ e. cc) (λ e. cc)))
      (returns over.thread refl refl)

Close-calls_example : over.calls ≡ 1 ∷ 2 ∷ []
unfolding create start close on_work
Close-calls_example = Close-calls none (some 1) (some 2) over over-Steps refl

-- The callback of `onRun` has gone round once more when `Close` is called.
abbrev in_rounds : System ℕ
in_rounds = closed (worked (worked (worked fresh)))

in_rounds-Steps : Steps false fresh in_rounds
unfolding create start close on_work
in_rounds-Steps =
    then_step
      (then_step
        (then_step (then_step start_here (works (λ e. cc) (λ e. cc))) (works (λ e. cc) (λ e. cc)))
        (works (λ e. cc) (λ e. cc)))
      (closes refl)

in_rounds-begun : in_rounds.closer ≢ outside
unfolding create start close on_work
in_rounds-begun e = cc

Close_returns_example :
    (((in_rounds.phase ≡ ended) × (in_rounds.closer ≡ returned))
      ⊎ ((s' : System ℕ) × Step false in_rounds s'))
    × ((s' : System ℕ)
        → Step false in_rounds s'
        → (steps_left s' < steps_left in_rounds) × (s'.closer ≢ outside))
    × (steps_left in_rounds ≤ 7)
Close_returns_example =
    Close_returns none (some 1) (some 2) in_rounds in_rounds-Steps in_rounds-begun

exit-IsDeadlock_example :
    (s : System ℕ) × Steps true (started none (some 1) none) s
    × (s.closer ≡ blocked)
    × ((s' : System ℕ) → ¬ Step true s s')
exit-IsDeadlock_example = exit-IsDeadlock none 1 none
