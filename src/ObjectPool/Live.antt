-- ===== src/ObjectPool/Live.antt =====
-- The object pool over any order of allocObjMemory and freeObjMemory, by what the memory pool does.
use cpp100net.Common.{ℕ, ◌≡◌, some, List, [], ◌∷◌, ◌++◌, Returns}
use cpp100net.MemoryAlloc
use cpp100net.MemoryAlloc.{Block, MemoryAlloc}
use cpp100net.MemoryAlloc.Use
use cpp100net.MemoryAlloc.Use.{IsSound}
use cpp100net.MemoryAlloc.Handed.{Handed}
use cpp100net.ObjectPool.{
  NodeHeader, ObjectPool, Place, pooled, outside, alloc_obj_memory, free_obj_memory,
}
use cpp100net.ObjectPool.Simulates.{to_place}

-- A block is taken, from the pool or from `new`, or one that is in use is given back; `live` are the
-- blocks of the pool that are in use.
pub data Step (p : ObjectPool) (live : List ℕ) : ObjectPool → List ℕ → Type 0 where
  takes :
      (i : ℕ) (p' : ObjectPool)
      → alloc_obj_memory p ≡ some (pooled i, p')
      → Step p live p' (i ∷ live)
  takes_outside :
      (b : NodeHeader) (p' : ObjectPool)
      → alloc_obj_memory p ≡ some (outside b, p')
      → Step p live p' live
  gives_back :
      (front back : List ℕ) (i : ℕ) (p' : ObjectPool)
      → live ≡ front ++ i ∷ back
      → free_obj_memory (pooled i) p ≡ some p'
      → Step p live p' (front ++ back)

pub data Reach (p : ObjectPool) (live : List ℕ) : ObjectPool → List ℕ → Type 0 where
  here : Reach p live p live
  then_step :
      {p1 : ObjectPool} {live1 : List ℕ} {p2 : ObjectPool} {live2 : List ℕ}
      → Reach p live p1 live1
      → Step p1 live1 p2 live2
      → Reach p live p2 live2

-- What `allocObjMemory` may return while `live` are in use.
abbrev pub TakenFrom : ℕ → List ℕ → Place → Type 0
TakenFrom count live p = Handed count live (to_place 0 p)

-- Each of the blocks can be given back, and is then the next one to be handed out.
abbrev pub Freeable : ObjectPool → List ℕ → Type 0
Freeable p [] = Unit {0}
Freeable p (i ∷ is) =
    Returns (free_obj_memory (pooled i) p) (λ p'. p'.p_header ≡ some i) × Freeable p is
