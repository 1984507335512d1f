-- ===== src/Thread.antt =====
-- depends/include/CellThread.hpp: a thread that is started, closed from outside and may exit from
-- inside. The callbacks are named by values of a type. That of `onRun` goes on in rounds for as long as
-- `isRun()` holds, as those of the library do, and may call `Exit` or return of its own accord between
-- them; those of `onCreate` and `onDestory` return.
pub mod Life
pub mod Close
pub mod End
pub mod Deadlock
mod Tests
use cpp100net.Common.{ℕ, Bool, true, false, Option, none, some, List, [], ◌∷◌, if◌then◌else◌, ◌>>=◌}
use cpp100net.Semaphore
use cpp100net.Semaphore.{Semaphore}

pub record CellThread (E : Type 0) : Type 0 where
  pub on_create : Option E
  pub on_run : Option E
  pub on_destory : Option E
  pub sem : Semaphore
  pub is_run : Bool

unfoldable pub create : {E : Type 0} → CellThread E
unfolding Semaphore.create
create = record {
  on_create = none;
  on_run = none;
  on_destory = none;
  sem = Semaphore.create;
  is_run = false;
}

-- `if (nullptr != onCreate) { _onCreate = onCreate; }`
abbrev pub replaced : {E : Type 0} → Option E → Option E → Option E
replaced none old = old
replaced (some e) old = some e

-- Where `OnWork` stands: before each of its steps, or at its end. `round_next` and `exit_next` are in the
-- middle of the callback of `onRun`, before it looks at `isRun()` for another round, and before it
-- calls `Exit`.
pub data Phase : Type 0 where
  create_next run_next round_next exit_next destory_next wakeup_next stop_next ended : Phase

abbrev pub calls_of : {E : Type 0} → Option E → List E
calls_of none = []
calls_of (some e) = e ∷ []

-- Where `OnWork` stands once it has called `onRun`, if there is one.
abbrev pub entered : {E : Type 0} → Option E → Phase
entered none = destory_next
entered (some e) = round_next

module _ {E : Type 0} where
  -- `Start`: whether a thread is made that runs `OnWork`.
  unfoldable pub start : Option E → Option E → Option E → CellThread E → Bool × CellThread E
  start c r d t = if t.is_run then (false, t) else (
    true,
    record t {
      is_run = true;
      on_create = replaced c t.on_create;
      on_run = replaced r t.on_run;
      on_destory = replaced d t.on_destory;
    },
  )

  -- `Close` up to the point at which it blocks; it holds `_mutex` from there on.
  unfoldable pub close : CellThread E → Bool × CellThread E
  unfolding Semaphore.begin_wait
  close t =
      if t.is_run
      then (let (blocks, s) = Semaphore.begin_wait t.sem in
          (blocks, record t { is_run = false; sem = s }))
      else (false, t)

  -- The rest of `Close`, once the semaphore lets it go on.
  unfoldable pub end_close : CellThread E → Option (CellThread E)
  unfolding Semaphore.end_wait
  end_close t = Semaphore.end_wait t.sem >>= λ s. some (record t { sem = s })

  unfoldable pub exit : CellThread E → CellThread E
  exit t = if t.is_run then record t { is_run = false } else t

  -- One step of `OnWork`: the callbacks that are called, and where it stands then.
  unfoldable pub on_work : Phase → CellThread E → List E × Phase × CellThread E
  unfolding Semaphore.wakeup exit
  on_work create_next t = (calls_of t.on_create, run_next, t)
  on_work run_next t = (calls_of t.on_run, entered t.on_run, t)
  on_work round_next t = ([], if t.is_run then round_next else destory_next, t)
  on_work exit_next t = ([], destory_next, exit t)
  on_work destory_next t = (calls_of t.on_destory, wakeup_next, t)
  on_work wakeup_next t = ([], stop_next, record t { sem = Semaphore.wakeup t.sem })
  on_work stop_next t = ([], ended, record t { is_run = false })
  on_work ended t = ([], ended, t)
