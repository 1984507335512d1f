-- ===== src/Semaphore.antt =====
-- depends/include/CellSemaphore.hpp: a counting semaphore. `wait` is in two parts: up to the point at
-- which the caller blocks, and from where it goes on.
use cpp100net.Common.{ℕ, suc, ◌-◌, Bool, Option, none, some, ltb, if◌then◌else◌}
use cpp100net.Common.Int.{ℤ, pos, inc_ℤ, dec_ℤ, is_neg, not_pos}

pub record Semaphore : Type 0 where
  pub n_wait : ℤ
  pub n_wakeup : ℕ

unfoldable pub create : Semaphore
create = record { n_wait = pos 0; n_wakeup = 0 }

-- `if (--_wait < 0)`: whether the caller blocks.
unfoldable pub begin_wait : Semaphore → Bool × Semaphore
begin_wait s = (is_neg (dec_ℤ s.n_wait), record s { n_wait = dec_ℤ s.n_wait })

-- `_cv.wait(lock, …); --_wakeup;`: it goes on when `_wakeup > 0`; before that, `none`.
unfoldable pub end_wait : Semaphore → Option Semaphore
end_wait s = if ltb 0 s.n_wakeup then some (record s { n_wakeup = s.n_wakeup - 1 }) else none

unfoldable pub wakeup : Semaphore → Semaphore
wakeup s =
    if not_pos (inc_ℤ s.n_wait)
    then record s { n_wait = inc_ℤ s.n_wait; n_wakeup = suc s.n_wakeup }
    else record s { n_wait = inc_ℤ s.n_wait }
