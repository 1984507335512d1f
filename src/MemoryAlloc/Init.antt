-- ===== src/MemoryAlloc/Init.antt =====
-- The loop of initMemory and the free list that it leaves.
use cpp100net.Common.{
  ℕ, zero, suc, ◌+◌, ◌-◌, ◌<◌, ◌≡◌, ◌≢◌, Bool-cases, refl, ap, sym, ◌∙◌, Option, none, some, List,
  [], ◌∷◌, length, get_elem?, set, ◌==◌, if◌then◌else◌, ◌>>=◌, arith, inl, inr, ◌⊎◌,
  get_elem?-set_self, get_elem?-set_ne, length-set,
}
use cpp100net.MemoryAlloc.{Block, MemoryAlloc, pool_block, put, link, link_all, init_memory}
use cpp100net.MemoryAlloc.Free.{NotIn, FreeList, last, next, IsPool}

-- `n` numbers from `i` on.
abbrev pub from : ℕ → ℕ → List ℕ
from i zero = []
from i (suc n) = i ∷ from (suc i) n

abbrev pub place_of : ℕ → ℕ → Option ℕ
place_of n i = if i == n then none else some i

-- The first `n` blocks are linked in order.
abbrev IsLinked : ℕ → List Block → Type 0
IsLinked n bs =
    (i : ℕ) → i < n → get_elem? bs i ≡ some (record (pool_block i) { p_next = place_of n (suc i) })

get_elem?-there :
    {A : Type 0} (xs : List A) (i : ℕ) → i < length xs → (x : A) × (get_elem? xs i ≡ some x)
get_elem?-there [] i h = elim h [ ]
get_elem?-there (x ∷ xs) zero h = (x, refl)
get_elem?-there (x ∷ xs) (suc i) h = get_elem?-there xs i (omega arith)

put_lem : (i : ℕ) (b : Block) (bs : List Block) → i < length bs → put i b bs ≡ some (set bs i b)
unfolding put
put_lem i b bs h = rw (get_elem?-there bs i h).1 refl

less-suc : (i n : ℕ) → i < suc n → (i < n) ⊎ (i ≡ n)
less-suc i n h = elim (Bool-cases (i == n)) [
  | inl e ↦ inr (ground arith)
  | inr e ↦ inl (ground arith)
]

-- The blocks after block `suc m` was put behind block `m`.
abbrev linked_one : ℕ → List Block → List Block
linked_one m bs =
    set (set bs (suc m) (pool_block (suc m))) m (record (pool_block m) { p_next = some (suc m) })

abbrev block_with : ℕ → Option ℕ → Option Block
block_with i after = some (record (pool_block i) { p_next = after })

place_of_same : (n : ℕ) → place_of n n ≡ none
place_of_same n = ground arith

place_of_other : (n i : ℕ) → i ≢ n → place_of n i ≡ some i
place_of_other n i ne = ground arith

link_lem :
    (m : ℕ) (bs : List Block)
    → IsLinked (suc m) bs
    → suc m < length bs
    → link (suc m) bs ≡ some (linked_one m bs)
unfolding link
link_lem m bs linked h =
    let pred : suc m - 1 ≡ m = omega arith in
    let apart : suc m ≢ m = ground arith in
    let before =
      get_elem?-set_ne bs (pool_block (suc m)) apart
      ∙ (linked m (omega arith) ∙ ap (block_with m) (place_of_same (suc m))) in
    rw ((get_elem?-there bs (suc m) h).1, pred, before) refl

linked_one-IsLinked :
    (m : ℕ) (bs : List Block)
    → IsLinked (suc m) bs
    → suc m < length bs
    → IsLinked (suc (suc m)) (linked_one m bs)
linked_one-IsLinked m bs linked h i below = elim (less-suc i (suc m) below) [
  | inr e ↦ rw e (
      get_elem?-set_ne (set bs (suc m) (pool_block (suc m)))
        (record (pool_block m) { p_next = some (suc m) }) (ground arith)
      ∙ (get_elem?-set_self bs (suc m) (pool_block (suc m)) h
          ∙ ap (block_with (suc m)) (sym (place_of_same (suc (suc m))))))
  | inl low ↦ elim (less-suc i m low) [
    | inr e ↦ rw e (
        get_elem?-set_self (set bs (suc m) (pool_block (suc m))) m
          (record (pool_block m) { p_next = some (suc m) })
          (omega (arith, length-set bs (suc m) (pool_block (suc m))))
        ∙ ap (block_with m) (sym (place_of_other (suc (suc m)) (suc m) (ground arith))))
    | inl lower ↦
        get_elem?-set_ne (set bs (suc m) (pool_block (suc m)))
          (record (pool_block m) { p_next = some (suc m) }) (ground arith)
        ∙ (get_elem?-set_ne bs (pool_block (suc m)) (ground arith)
            ∙ (linked i low
                ∙ ap (block_with i) (
                    place_of_other (suc m) (suc i) (ground arith)
                    ∙ sym (place_of_other (suc (suc m)) (suc i) (ground arith)))))
  ]
]

length-linked_one : (m : ℕ) (bs : List Block) → length (linked_one m bs) ≡ length bs
length-linked_one m bs =
    length-set (set bs (suc m) (pool_block (suc m))) m
      (record (pool_block m) { p_next = some (suc m) })
    ∙ length-set bs (suc m) (pool_block (suc m))

n-eq : (m k n : ℕ) → k ≡ suc m → k + 0 ≡ n → n ≡ suc m
n-eq m k n at h = omega arith

link_all_lem :
    (left m k n : ℕ) (bs : List Block)
    → k ≡ suc m
    → IsLinked (suc m) bs
    → k + left ≡ n
    → n ≡ length bs
    → (bs' : List Block) × (link_all left k bs ≡ some bs') × IsLinked n bs'
unfolding link_all
link_all_lem zero m k n bs at linked h size = (bs, refl, rw (n-eq m k n at h) linked)
link_all_lem (suc left) m k n bs at linked h size =
    let rest =
      link_all_lem left (suc m) (k + 1) n (linked_one m bs) (omega (arith, at))
        (linked_one-IsLinked m bs linked (omega (arith, at, h, size))) (omega (arith, h))
        (size ∙ sym (length-linked_one m bs)) in
    (
      rest.0,
      ap (λ j. link j bs >>= link_all left (k + 1)) at
          ∙ (ap (λ o. o >>= link_all left (k + 1))
                (link_lem m bs linked (omega (arith, at, h, size)))
              ∙ rest.1),
      rest.2,
    )

from-NotIn : (i j n : ℕ) → i < j → NotIn i (from j n)
from-NotIn i j zero h = tt
from-NotIn i j (suc n) h = (ground arith, from-NotIn i (suc j) n (omega arith))

ends : (n i : ℕ) → i + 0 ≡ n → place_of n i ≡ none
ends n i h = ground arith

IsLinked-FreeList :
    (n : ℕ) (bs : List Block)
    → IsLinked n bs
    → (i k : ℕ) → i + k ≡ n
    → FreeList bs (place_of n i) (from i k)
IsLinked-FreeList n bs linked i zero h = rw (ends n i h) last
IsLinked-FreeList n bs linked i (suc k) h = rw (place_of_other n i (ground arith)) (
    next i (record (pool_block i) { p_next = place_of n (suc i) }) (from (suc i) k)
      (linked i (omega arith)) refl (from-NotIn i (suc i) k (omega arith))
      (IsLinked-FreeList n bs linked (suc i) k (omega arith)))

less_one : {k n : ℕ} → k ≡ suc n → k - 1 ≡ n
less_one h = omega (arith, h)

first-IsLinked : (raw : List Block) → 0 < length raw → IsLinked 1 (set raw 0 (pool_block 0))
first-IsLinked raw h zero below =
    get_elem?-set_self raw 0 (pool_block 0) h ∙ ap (block_with 0) (sym (place_of_same 1))
first-IsLinked raw h (suc i) below = ground arith

-- `initMemory` of a pool of at least one block, in fresh memory for exactly that many, succeeds, and
-- all its blocks are free, in the order of their numbers.
pub init_memory-IsPool :
    (raw : List Block) (a : MemoryAlloc) (n : ℕ)
    → a.n_block_size ≡ suc n
    → length raw ≡ suc n
    → (a' : MemoryAlloc) × (init_memory raw a ≡ some a') × IsPool a' (from 0 (suc n))
unfolding init_memory
init_memory-IsPool raw a n count size =
    let first = set raw 0 (pool_block 0) in
    let k : List Block → Option MemoryAlloc =
      λ bs. some (record a { p_buf = some bs; p_header = some 0 }) in
    let rest =
      link_all_lem n 0 1 (suc n) first refl (first-IsLinked raw (omega (arith, size))) (omega arith)
        (omega (arith, size, length-set raw 0 (pool_block 0))) in
    let free = IsLinked-FreeList (suc n) rest.0 rest.2 0 (suc n) (omega arith) in
    (
      record a { p_buf = some rest.0; p_header = some 0 },
      ap (λ o. o >>= λ bs. link_all (a.n_block_size - 1) 1 bs >>= k)
            (put_lem 0 (pool_block 0) raw (omega (arith, size)))
          ∙ (ap (λ left. link_all left 1 first >>= k) (less_one count) ∙ ap (λ o. o >>= k) rest.1),
      record {
        blocks = rest.0;
        there = refl;
        free = rw (place_of_other (suc n) 0 (ground arith)) at free;
      },
    )
