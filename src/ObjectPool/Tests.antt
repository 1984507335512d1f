-- ===== src/ObjectPool/Tests.antt =====
-- A pool of two objects, both of which are taken; then the first is given back.
use cpp100net.Common.{ℕ, true, Option, none, some, [], ◌∷◌}
use cpp100net.ObjectPool.{NodeHeader, ObjectPool}

abbrev node : ℕ → ℕ → Option ℕ → NodeHeader
node i used after = record { p_next = after; n_id = some i; n_ref = used; b_pool = true }

abbrev with_nodes : NodeHeader → NodeHeader → Option ℕ → ObjectPool
with_nodes b c head = record { p_header = head; p_buf = b ∷ c ∷ [] }

abbrev new_pool : ObjectPool
new_pool = with_nodes (node 0 0 (some 1)) (node 1 0 none) (some 0)

abbrev one_left : ObjectPool
one_left = with_nodes (node 0 0 none) (node 1 1 none) (some 0)
