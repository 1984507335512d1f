-- ===== src/Thread/End.antt =====
-- That `Close` returns.
use cpp100net.Common.{
  ℕ, ◌+◌, ◌-◌, ◌<◌, ◌≤◌, ◌≡◌, ◌≢◌, refl, ap, ◌⊎◌, inl, inr, Bool, true, false, Option, none, some,
  arith,
}
use cpp100net.Semaphore.{Semaphore}
use cpp100net.Thread.{
  CellThread, Phase, create_next, run_next, round_next, exit_next, destory_next, wakeup_next,
  stop_next, ended, entered, close, end_close, on_work,
}
use cpp100net.Thread.Life.{
  Closer, outside, blocked, returned, System, started, worked, closed, Step, works, leaves,
  enters_exit, runs_exit, closes, returns, Steps,
}
use cpp100net.Thread.Close.{Holds, IsLife, Steps-IsLife}

end_close_ok :
    {E : Type 0} (t : CellThread E)
    → Holds true blocked t.sem t.is_run
    → (t' : CellThread E) × (end_close t ≡ some t')
unfolding end_close
end_close_ok t h = (record t { sem = record t.sem { n_wakeup = t.sem.n_wakeup - 1 } }, rw h.1 refl)

-- The steps that are left at most once `isRun()` is false.
abbrev steps_of : Phase → ℕ
steps_of create_next = 6
steps_of run_next = 5
steps_of round_next = 4
steps_of exit_next = 4
steps_of destory_next = 3
steps_of wakeup_next = 2
steps_of stop_next = 1
steps_of ended = 0

abbrev calls_left : Closer → ℕ
calls_left outside = 2
calls_left blocked = 1
calls_left returned = 0

unfoldable pub steps_left : {E : Type 0} → System E → ℕ
steps_left s = steps_of s.phase + calls_left s.closer

entered-steps_of : {E : Type 0} (o : Option E) → steps_of (entered o) < 5
entered-steps_of none = omega arith
entered-steps_of (some e) = omega arith

work-steps_of :
    {E : Type 0} (p : Phase) (t : CellThread E)
    → p ≢ ended
    → p ≢ exit_next
    → (p ≡ round_next → t.is_run ≡ false)
    → steps_of (on_work p t).1 < steps_of p
unfolding on_work
work-steps_of create_next t h k stops = omega arith
work-steps_of run_next t h k stops = entered-steps_of t.on_run
work-steps_of round_next t h k stops = rw (stops refl) omega arith
work-steps_of exit_next t h k stops = absurd (k refl)
work-steps_of destory_next t h k stops = omega arith
work-steps_of wakeup_next t h k stops = omega arith
work-steps_of stop_next t h k stops = omega arith
work-steps_of ended t h k stops = absurd (h refl)

steps_of-bound : (p : Phase) → steps_of p ≤ 6
steps_of-bound create_next = omega arith
steps_of-bound run_next = omega arith
steps_of-bound round_next = omega arith
steps_of-bound exit_next = omega arith
steps_of-bound destory_next = omega arith
steps_of-bound wakeup_next = omega arith
steps_of-bound stop_next = omega arith
steps_of-bound ended = omega arith

calls_left-bound : (k : Closer) → k ≢ outside → calls_left k ≤ 1
calls_left-bound outside h = absurd (h refl)
calls_left-bound blocked h = omega arith
calls_left-bound returned h = omega arith

-- Once `Close` has begun, a thread in a round of its callback finds that it is to stop.
Holds-is_run :
    (k : Closer) (s : Semaphore) (run : Bool) → k ≢ outside → Holds false k s run → run ≡ false
Holds-is_run outside s run begun h = absurd (begun refl)
Holds-is_run blocked s run begun h = h.2
Holds-is_run returned s run begun h = elim h [ ]

module _ {E : Type 0} (c r d : Option E) where
  Step-steps_left :
      {s s' : System E}
      → Step false s s'
      → IsLife c r d s
      → s.closer ≢ outside
      → (steps_left s' < steps_left s) × (s'.closer ≢ outside)
  unfolding steps_left on_work close
  Step-steps_left {s} (works h k) v begun =
      let stops : s.phase ≡ round_next → s.thread.is_run ≡ false =
        λ p. Holds-is_run s.closer s.thread.sem s.thread.is_run begun (rw p at v.holds) in
      (omega (arith, work-steps_of s.phase s.thread h k stops), begun)
  Step-steps_left {s} (leaves p) v begun = (omega (arith, ap steps_of p), begun)
  Step-steps_left (enters_exit bad p) v begun = cc
  Step-steps_left (runs_exit p free) v begun = absurd (v.no_exit p)
  Step-steps_left {s} (closes p) v begun = absurd (begun p)
  Step-steps_left {s} (returns t p e) v begun = (omega (arith, ap calls_left p), λ x. cc)

  -- What can be done next, by where the two threads stand.
  goes_on :
      (p : Phase) (k : Closer) (s : System E)
      → s.phase ≡ p
      → s.closer ≡ k
      → IsLife c r d s
      → ((p ≡ ended) × (k ≡ returned)) ⊎ ((s' : System E) × Step false s s')
  goes_on ended returned s e f v = inl (refl, refl)
  goes_on ended outside s e f v = inr (closed s, closes f)
  goes_on ended blocked s e f v =
      let (t, done) = end_close_ok s.thread (rw (e, f) at v.holds) in
      inr (record s { thread = t; closer = returned }, returns t f done)
  goes_on exit_next k s e f v = absurd (v.no_exit e)
  goes_on create_next k s e f v = inr (worked s, works (λ x. cc) (λ x. cc))
  goes_on round_next k s e f v = inr (worked s, works (λ x. cc) (λ x. cc))
  goes_on run_next k s e f v = inr (worked s, works (λ x. cc) (λ x. cc))
  goes_on destory_next k s e f v = inr (worked s, works (λ x. cc) (λ x. cc))
  goes_on wakeup_next k s e f v = inr (worked s, works (λ x. cc) (λ x. cc))
  goes_on stop_next k s e f v = inr (worked s, works (λ x. cc) (λ x. cc))

  -- After a first `Start`, and with a callback of `onRun` that does not call `Exit` and goes on in rounds
  -- while `isRun()` holds, at most: once `Close` has begun, it returns. As long as it has not returned, or
  -- `OnWork` has not come to its end, one of the two threads can take a step; each step of either lowers
  -- the number of steps that are left, and `Close` is still begun after it; and that number is at most 7.
  -- The callbacks of `onCreate` and `onDestory`, and each round, return.
  pub Close_returns :
      (s : System E)
      → Steps false (started c r d) s
      → s.closer ≢ outside
      → (((s.phase ≡ ended) × (s.closer ≡ returned)) ⊎ ((s' : System E) × Step false s s'))
        × ((s' : System E)
            → Step false s s'
            → (steps_left s' < steps_left s) × (s'.closer ≢ outside))
        × (steps_left s ≤ 7)
  unfolding steps_left
  Close_returns s steps begun =
      let v = Steps-IsLife c r d steps in
      let next : ((s.phase ≡ ended) × (s.closer ≡ returned)) ⊎ ((s' : System E) × Step false s s') =
        goes_on s.phase s.closer s refl refl v in
      (
        next,
        λ s' step. Step-steps_left step v begun,
        omega (arith, steps_of-bound s.phase, calls_left-bound s.closer begun),
      )
