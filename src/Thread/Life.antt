-- ===== src/Thread/Life.antt =====
-- The life of a thread: what the thread itself and the one that closes it do, in any order.
use cpp100net.Common.{◌≡◌, ◌≢◌, Bool, true, Option, some, List, [], ◌++◌, if◌then◌else◌}
use cpp100net.Thread.{
  CellThread, Phase, create_next, round_next, exit_next, destory_next, create, start, close,
  end_close, on_work,
}

-- The closing thread: before its call of `Close`, blocked in it (and then `_mutex` is held), or after.
pub data Closer : Type 0 where
  outside blocked returned : Closer

pub record System (E : Type 0) : Type 0 where
  pub thread : CellThread E
  pub phase : Phase
  pub closer : Closer
  pub calls : List E

module _ {E : Type 0} where
  -- A thread object right after its first `Start`.
  abbrev pub started : Option E → Option E → Option E → System E
  unfolding start create
  started c r d = record {
    thread = (start c r d create).1;
    phase = create_next;
    closer = outside;
    calls = [];
  }

  abbrev pub worked : System E → System E
  unfolding on_work
  worked s =
      let (new, phase, thread) = on_work s.phase s.thread in
      record s { thread = thread; phase = phase; calls = s.calls ++ new }

  abbrev pub closed : System E → System E
  unfolding close
  closed s =
      let (blocks, thread) = close s.thread in
      record s { thread = thread; closer = if blocks then blocked else returned }

  -- One step of either thread. The callback of `onRun` may return before `isRun()` is false (`leaves`), and
  -- may call `Exit`, which needs the mutex that a blocked `Close` holds.
  pub data Step (exits : Bool) (s : System E) : System E → Type 0 where
    works : s.phase ≢ Phase.ended → s.phase ≢ exit_next → Step exits s (worked s)
    leaves : s.phase ≡ round_next → Step exits s (record s { phase = destory_next })
    enters_exit :
        exits ≡ true → s.phase ≡ round_next → Step exits s (record s { phase = exit_next })
    runs_exit : s.phase ≡ exit_next → s.closer ≢ blocked → Step exits s (worked s)
    closes : s.closer ≡ outside → Step exits s (closed s)
    returns :
        (t : CellThread E)
        → s.closer ≡ blocked
        → end_close s.thread ≡ some t
        → Step exits s (record s { thread = t; closer = returned })

  -- Any number of steps.
  pub data Steps (exits : Bool) (s : System E) : System E → Type 0 where
    start_here : Steps exits s s
    then_step : {t u : System E} → Steps exits s t → Step exits t u → Steps exits s u
