-- ===== src/Thread/Close.antt =====
-- The callbacks that are called by the time `Close` returns.
use cpp100net.Common.{
  ◌≡◌, ◌≢◌, refl, ap, ◌∙◌, inl, inr, Bool, true, false, Option, none, some, List, [], ◌++◌,
  append-nil, if◌then◌else◌, arith, Bool-cases,
}
use cpp100net.Common.Int.{pos, negsuc}
use cpp100net.Semaphore
use cpp100net.Semaphore.{Semaphore}
use cpp100net.Thread.{
  CellThread, Phase, create_next, run_next, round_next, exit_next, destory_next, wakeup_next,
  stop_next, ended, calls_of, entered, replaced, create, start, close, end_close, on_work,
}
use cpp100net.Thread.Life.{
  Closer, outside, blocked, returned, System, started, worked, Step, works, leaves, enters_exit,
  runs_exit, closes, returns, Steps, start_here, then_step,
}

-- Whether the thread has called `wakeup`.
abbrev pub woken : Phase → Bool
woken stop_next = true
woken ended = true
woken p = false

-- What the semaphore and the flag hold, by where the two threads stand.
abbrev pub Holds : Bool → Closer → Semaphore → Bool → Type 0
Holds false outside s run = (s.n_wait ≡ pos 0) × (s.n_wakeup ≡ 0) × (run ≡ true)
Holds false blocked s run = (s.n_wait ≡ negsuc 0) × (s.n_wakeup ≡ 0) × (run ≡ false)
Holds false returned s run = ⊥
Holds true outside s run = (s.n_wait ≡ pos 1) × (s.n_wakeup ≡ 0)
Holds true blocked s run = (s.n_wait ≡ pos 0) × (s.n_wakeup ≡ 1)
Holds true returned s run = Unit {0}

replaced-none : {E : Type 0} (e : Option E) → replaced e none ≡ e
replaced-none none = refl
replaced-none (some e) = refl

wakeup-Holds :
    (k : Closer) (s : Semaphore) (run : Bool)
    → Holds false k s run
    → Holds true k (Semaphore.wakeup s) run
unfolding Semaphore.wakeup
wakeup-Holds outside s run h = ground arith
wakeup-Holds blocked s run h = ground arith
wakeup-Holds returned s run h = elim h [ ]

-- Once it has called `wakeup`, the flag does not matter.
woken-Holds : (k : Closer) (s : Semaphore) (run : Bool) → Holds true k s run → Holds true k s false
woken-Holds outside s run h = h
woken-Holds blocked s run h = h
woken-Holds returned s run h = h

close_same :
    {E : Type 0} (t : CellThread E)
    → ((close t).1.on_create ≡ t.on_create)
      × ((close t).1.on_run ≡ t.on_run)
      × ((close t).1.on_destory ≡ t.on_destory)
unfolding close
close_same t = ground arith

close-Holds :
    {E : Type 0} (w : Bool) (t : CellThread E)
    → Holds w outside t.sem t.is_run
    → Holds w (if (close t).0 then blocked else returned) (close t).1.sem (close t).1.is_run
unfolding close
close-Holds false t h = rw (h.2, h.0) (refl, h.1, refl)
close-Holds true t h = elim (Bool-cases t.is_run) [ inl e ↦ rw (e, h.0) tt | inr e ↦ rw e tt ]

-- A blocked `Close` goes on only after the thread has called `wakeup`.
end_close-Holds :
    {E : Type 0} (w : Bool) (t t' : CellThread E)
    → Holds w blocked t.sem t.is_run
    → end_close t ≡ some t'
    → (t'.on_create ≡ t.on_create)
      × (t'.on_run ≡ t.on_run)
      × (t'.on_destory ≡ t.on_destory)
      × (w ≡ true)
unfolding end_close
end_close-Holds false t t' h e = ground arith
end_close-Holds true t t' h e = ground arith

module _ {E : Type 0} (c r d : Option E) where
  -- The callbacks called before a phase.
  abbrev pub called : Phase → List E
  called create_next = []
  called run_next = calls_of c
  called round_next = calls_of c ++ calls_of r
  called exit_next = calls_of c ++ calls_of r
  called destory_next = calls_of c ++ calls_of r
  called p = (calls_of c ++ calls_of r) ++ calls_of d

  pub record IsLife (s : System E) : Type 0 where
    pub same_create : s.thread.on_create ≡ c
    pub same_run : s.thread.on_run ≡ r
    pub same_destory : s.thread.on_destory ≡ d
    pub done : s.calls ≡ called s.phase
    pub no_exit : s.phase ≢ exit_next
    pub holds : Holds (woken s.phase) s.closer s.thread.sem s.thread.is_run

  started-IsLife : IsLife (started c r d)
  unfolding start create
  started-IsLife = record {
    same_create = replaced-none c;
    same_run = replaced-none r;
    same_destory = replaced-none d;
    done = refl;
    no_exit = ground arith;
    holds = (refl, refl, refl);
  }

  -- `onRun` was called, if there is one.
  called-entered : (o : Option E) → called (entered o) ≡ calls_of c ++ calls_of r
  called-entered none = refl
  called-entered (some e) = refl

  entered-in_run : (o : Option E) → (entered o ≢ exit_next) × (woken (entered o) ≡ false)
  entered-in_run none = (λ x. cc, refl)
  entered-in_run (some e) = (λ x. cc, refl)

  round-woken : (b : Bool) → woken (if b then round_next else destory_next) ≡ false
  round-woken true = refl
  round-woken false = refl

  worked-IsLife :
      (p : Phase) (t : CellThread E) (k : Closer) (l : List E)
      → IsLife (record { thread = t; phase = p; closer = k; calls = l })
      → IsLife (worked (record { thread = t; phase = p; closer = k; calls = l }))
  unfolding on_work
  worked-IsLife create_next t k l v = record {
    same_create = v.same_create;
    same_run = v.same_run;
    same_destory = v.same_destory;
    done = rw (v.done, v.same_create) refl;
    no_exit = ground arith;
    holds = v.holds;
  }
  worked-IsLife run_next t k l v =
      let inside = entered-in_run t.on_run in
      record {
        same_create = v.same_create;
        same_run = v.same_run;
        same_destory = v.same_destory;
        done = rw (v.done, called-entered t.on_run, v.same_run) refl;
        no_exit = inside.0;
        holds = rw inside.1 v.holds;
      }
  worked-IsLife round_next t k l v = record {
    same_create = v.same_create;
    same_run = v.same_run;
    same_destory = v.same_destory;
    done =
        rw (append-nil l) elim (Bool-cases t.is_run) [ inl e ↦ rw e v.done | inr e ↦ rw e v.done ];
    no_exit = ground arith;
    holds = rw (round-woken t.is_run) v.holds;
  }
  worked-IsLife exit_next t k l v = absurd (v.no_exit refl)
  worked-IsLife destory_next t k l v = record {
    same_create = v.same_create;
    same_run = v.same_run;
    same_destory = v.same_destory;
    done = rw (v.done, v.same_destory) refl;
    no_exit = ground arith;
    holds = v.holds;
  }
  worked-IsLife wakeup_next t k l v = record {
    same_create = v.same_create;
    same_run = v.same_run;
    same_destory = v.same_destory;
    done = rw (append-nil l) v.done;
    no_exit = ground arith;
    holds = wakeup-Holds k t.sem t.is_run v.holds;
  }
  worked-IsLife stop_next t k l v = record {
    same_create = v.same_create;
    same_run = v.same_run;
    same_destory = v.same_destory;
    done = rw (append-nil l) v.done;
    no_exit = ground arith;
    holds = woken-Holds k t.sem t.is_run v.holds;
  }
  worked-IsLife ended t k l v = record {
    same_create = v.same_create;
    same_run = v.same_run;
    same_destory = v.same_destory;
    done = rw (append-nil l) v.done;
    no_exit = v.no_exit;
    holds = v.holds;
  }

  Step-IsLife : {s s' : System E} → Step false s s' → IsLife s → IsLife s'
  unfolding close
  Step-IsLife {s} (works h k) v = worked-IsLife s.phase s.thread s.closer s.calls v
  Step-IsLife {s} (leaves p) v = record {
    same_create = v.same_create;
    same_run = v.same_run;
    same_destory = v.same_destory;
    done = v.done ∙ ap called p;
    no_exit = λ x. cc;
    holds = rw p at v.holds;
  }
  Step-IsLife (enters_exit bad p) v = cc
  Step-IsLife (runs_exit p free) v = absurd (v.no_exit p)
  Step-IsLife {s} (closes p) v =
      let same = close_same s.thread in
      record {
        same_create = same.0 ∙ v.same_create;
        same_run = same.1 ∙ v.same_run;
        same_destory = same.2 ∙ v.same_destory;
        done = v.done;
        no_exit = v.no_exit;
        holds = close-Holds (woken s.phase) s.thread (rw p at v.holds);
      }
  Step-IsLife {s} (returns t p e) v =
      let done = end_close-Holds (woken s.phase) s.thread t (rw p at v.holds) e in
      record {
        same_create = done.0 ∙ v.same_create;
        same_run = done.1 ∙ v.same_run;
        same_destory = done.2 ∙ v.same_destory;
        done = v.done;
        no_exit = v.no_exit;
        holds = rw done.3 tt;
      }

  pub Steps-IsLife : {s : System E} → Steps false (started c r d) s → IsLife s
  Steps-IsLife start_here = started-IsLife
  Steps-IsLife (then_step before step) = Step-IsLife step (Steps-IsLife before)

  returned-woken :
      (p : Phase) (s : Semaphore) (run : Bool)
      → Holds (woken p) returned s run
      → called p ≡ (calls_of c ++ calls_of r) ++ calls_of d
  returned-woken stop_next s run h = refl
  returned-woken ended s run h = refl
  returned-woken create_next s run h = elim h [ ]
  returned-woken run_next s run h = elim h [ ]
  returned-woken round_next s run h = elim h [ ]
  returned-woken exit_next s run h = elim h [ ]
  returned-woken destory_next s run h = elim h [ ]
  returned-woken wakeup_next s run h = elim h [ ]

  -- After a first `Start`, with callbacks that do not call `Exit`, and in whatever order the thread
  -- and the one that closes it take their steps: when `Close` has returned, the callbacks that there
  -- are have all been called, once each, in the order `onCreate`, `onRun`, `onDestory`.
  pub Close-calls :
      (s : System E)
      → Steps false (started c r d) s
      → s.closer ≡ returned
      → s.calls ≡ (calls_of c ++ calls_of r) ++ calls_of d
  Close-calls s steps done =
      let v = Steps-IsLife steps in
      v.done ∙ returned-woken s.phase s.thread.sem s.thread.is_run (rw done at v.holds)
