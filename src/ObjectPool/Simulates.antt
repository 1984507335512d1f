-- ===== src/ObjectPool/Simulates.antt =====
-- The object pool against the pool of memory blocks of depends/include/MemoryMgr.hpp.
use mathlib.Core.Option.{some-injective, none-ne-some}
use cpp100net.Common.{
  ℕ, zero, suc, ◌+◌, ◌-◌, ◌≡◌, refl, ap, true, false, Option, none, some, List, [], ◌∷◌, get_elem?,
  set, ◌==◌, map, Bool-cases, Option-cases, inl, inr,
}
use cpp100net.MemoryAlloc
use cpp100net.MemoryAlloc.{Block, MemoryAlloc}
use cpp100net.ObjectPool.{
  NodeHeader, ObjectPool, put, pool_node, link, link_all, init_pool, Place, pooled, outside,
  take_node, alloc_obj_memory, free_obj_memory,
}

abbrev pub to_block : NodeHeader → Block
to_block n = record {
  n_id = n.n_id;
  n_ref = n.n_ref;
  in_alloc = true;
  p_next = n.p_next;
  b_pool = n.b_pool;
}

-- The pool of `count` blocks with room for `size` bytes.
abbrev pub to_alloc : ℕ → ℕ → ObjectPool → MemoryAlloc
to_alloc size count p = record {
  p_buf = some (map to_block p.p_buf);
  p_header = p.p_header;
  n_size = size;
  n_block_size = count;
}

abbrev pub to_place : ℕ → Place → MemoryAlloc.Place
to_place size (pooled i) = MemoryAlloc.pooled i
to_place size (outside b) = MemoryAlloc.outside size (record (to_block b) { in_alloc = false })

-- What is done to the result, if there is one.
abbrev pub apply {ℓ κ} : {A : Type ℓ} {B : Type κ} → (A → B) → Option A → Option B
apply f none = none
apply f (some a) = some (f a)

pub get_elem?-map :
    (bs : List NodeHeader) (i : ℕ) → get_elem? (map to_block bs) i ≡ apply to_block (get_elem? bs i)
get_elem?-map [] i = refl
get_elem?-map (b ∷ bs) zero = refl
get_elem?-map (b ∷ bs) (suc i) = get_elem?-map bs i

set-map :
    (bs : List NodeHeader) (i : ℕ) (b : NodeHeader)
    → set (map to_block bs) i (to_block b) ≡ map to_block (set bs i b)
set-map [] i b = refl
set-map (c ∷ bs) zero b = refl
set-map (c ∷ bs) (suc i) b = ap (λ cs. to_block c ∷ cs) (set-map bs i b)

put-map :
    (i : ℕ) (b : NodeHeader) (bs : List NodeHeader)
    → MemoryAlloc.put i (to_block b) (map to_block bs) ≡ apply (map to_block) (put i b bs)
unfolding put MemoryAlloc.put
put-map i b bs = elim (Option-cases (get_elem? bs i)) [
  | inl gone ↦ rw (get_elem?-map bs i, gone) refl
  | inr (old, there) ↦ rw (get_elem?-map bs i, there, set-map bs i b) refl
]

link-map :
    (n : ℕ) (bs : List NodeHeader)
    → MemoryAlloc.link n (map to_block bs) ≡ apply (map to_block) (link n bs)
unfolding link MemoryAlloc.link
link-map n bs = elim (Option-cases (put n (pool_node n) bs)) [
  | inl failed ↦ rw (put-map n (pool_node n) bs, failed) refl
  | inr (new, done) ↦ elim (Option-cases (get_elem? new (n - 1))) [
    | inl gone ↦ rw (put-map n (pool_node n) bs, done, get_elem?-map new (n - 1), gone) refl
    | inr (before, there) ↦
        rw
          (
            put-map n (pool_node n) bs,
            done,
            get_elem?-map new (n - 1),
            there,
            set-map new (n - 1) (record before { p_next = some n }),
          )
          refl
  ]
]

link_all-map :
    (left n : ℕ) (bs : List NodeHeader)
    → MemoryAlloc.link_all left n (map to_block bs) ≡ apply (map to_block) (link_all left n bs)
unfolding link_all MemoryAlloc.link_all
link_all-map zero n bs = refl
link_all-map (suc left) n bs = elim (Option-cases (link n bs)) [
  | inl failed ↦ rw (link-map n bs, failed) refl
  | inr (new, done) ↦ rw (link-map n bs, done) (link_all-map left (n + 1) new)
]

pub init_pool-map :
    (size count : ℕ) (raw : List NodeHeader) (a : MemoryAlloc)
    → a.n_size ≡ size
    → a.n_block_size ≡ count
    → MemoryAlloc.init_memory (map to_block raw) a
      ≡ apply (to_alloc size count) (init_pool count raw)
unfolding init_pool MemoryAlloc.init_memory
init_pool-map size count raw a s c = elim (Option-cases (put 0 (pool_node 0) raw)) [
  | inl failed ↦ rw (put-map 0 (pool_node 0) raw, failed) refl
  | inr (first, done) ↦ elim (Option-cases (link_all (count - 1) 1 first)) [
    | inl failed ↦
        rw (put-map 0 (pool_node 0) raw, done, c, link_all-map (count - 1) 1 first, failed) refl
    | inr (bs, linked) ↦
        rw (put-map 0 (pool_node 0) raw, done, c, link_all-map (count - 1) 1 first, linked, s) refl
  ]
]

take_node-map :
    (size room count : ℕ) (p : ObjectPool) (h : Option ℕ)
    → MemoryAlloc.take_block room h (map to_block p.p_buf) (to_alloc size count p)
      ≡ apply (λ r. (to_place room r.0, to_alloc size count r.1)) (take_node h p)
unfolding MemoryAlloc.take_block put MemoryAlloc.put
take_node-map size room count p none = refl
take_node-map size room count p (some i) = elim (Option-cases (get_elem? p.p_buf i)) [
  | inl gone ↦ rw (get_elem?-map p.p_buf i, gone) refl
  | inr (b, there) ↦ elim (Bool-cases (b.n_ref == 0)) [
    | inl free ↦
        rw (get_elem?-map p.p_buf i, there, free, set-map p.p_buf i (record b { n_ref = 1 })) refl
    | inr used ↦ rw (get_elem?-map p.p_buf i, there, used) refl
  ]
]

pub alloc_obj_memory-map :
    (raw : List Block) (size room count : ℕ) (p : ObjectPool)
    → MemoryAlloc.alloc_memory raw room (to_alloc size count p)
      ≡ apply (λ r. (to_place room r.0, to_alloc size count r.1)) (alloc_obj_memory p)
unfolding alloc_obj_memory MemoryAlloc.alloc_memory MemoryAlloc.take_block
alloc_obj_memory-map raw size room count p = take_node-map size room count p p.p_header

-- Where `freeObjMemory` does not fail its assertion, `freeMemory` does the same.
pub free_obj_memory-map :
    (size count i : ℕ) (p p' : ObjectPool)
    → free_obj_memory (pooled i) p ≡ some p'
    → MemoryAlloc.free_memory (MemoryAlloc.pooled i) (to_alloc size count p)
      ≡ some (to_alloc size count p')
unfolding free_obj_memory MemoryAlloc.free_memory MemoryAlloc.release put MemoryAlloc.put
free_obj_memory-map size count i p p' e = elim (Option-cases (get_elem? p.p_buf i)) [
  | inl gone ↦ absurd (none-ne-some p' (rw gone at e))
  | inr (b, there) ↦ elim (Bool-cases (b.n_ref == 1)) [
    | inr other ↦ absurd (none-ne-some p' (rw (there, other) at e))
    | inl once ↦
        let freed = record b { n_ref = 0; p_next = p.p_header } in
        rw (get_elem?-map p.p_buf i, there, once, set-map p.p_buf i freed)
          (ap (λ q. some (to_alloc size count q)) (some-injective _ _ (rw (there, once) at e)))
  ]
]
