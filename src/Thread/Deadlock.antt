-- ===== src/Thread/Deadlock.antt =====
-- `Exit` against `Close`.
use cpp100net.Common.{◌≡◌, refl, true, Option, some}
use cpp100net.Semaphore
use cpp100net.Thread.{exit_next, create, start, close, end_close, on_work}
use cpp100net.Thread.Life.{
  blocked, System, started, worked, closed, Step, works, leaves, enters_exit, runs_exit, closes,
  returns, Steps, start_here, then_step,
}

module _ {E : Type 0} (c : Option E) (call : E) (d : Option E) where
  -- The thread is in its callback, `Close` was called, and then the callback calls `Exit`.
  unfoldable stuck : System E
  unfolding create start close on_work Semaphore.begin_wait
  stuck = record (closed (worked (worked (started c (some call) d)))) { phase = exit_next }

  stuck-Steps : Steps true (started c (some call) d) stuck
  unfolding stuck
  stuck-Steps =
      then_step
        (then_step
          (then_step (then_step start_here (works (λ e. cc) (λ e. cc))) (works (λ e. cc) (λ e. cc)))
          (closes refl))
        (enters_exit refl refl)

  not-Step : (s' : System E) → ¬ Step true stuck s'
  unfolding stuck end_close
  not-Step s' (works h k) = k refl
  not-Step s' (leaves p) = cc
  not-Step s' (enters_exit may p) = cc
  not-Step s' (runs_exit p free) = free refl
  not-Step s' (closes p) = cc
  not-Step s' (returns t p e) = cc

  -- Where the callback of `onRun` may call `Exit`, `Close` can block for ever: from a first `Start` a
  -- state is reached in which `Close` has not returned and no step is possible, since `Exit` waits for
  -- the mutex, which `Close` holds until the thread has called `wakeup`.
  pub exit-IsDeadlock :
      (s : System E) × Steps true (started c (some call) d) s
      × (s.closer ≡ blocked)
      × ((s' : System E) → ¬ Step true s s')
  unfolding stuck
  exit-IsDeadlock = (stuck, stuck-Steps, refl, not-Step)
