-- ===== src/SendQueue/Chain.antt =====
-- What the links of src/net/SendQueue.cpp look like when they hold a list of nodes.
use ttserver.Base.{◌≡◌, false, mem, List, [], ◌∷◌}
use ttserver.SendQueue.{Ptr}

-- No address occurs twice.
unfoldable pub Distinct : List Ptr → Type 0
Distinct [] = Unit
Distinct (p ∷ xs) = (mem p xs ≡ false) × Distinct xs

-- The links lead from `a` over exactly the nodes of the list to `b`, and back.
unfoldable pub Seg : (Ptr → Ptr) → (Ptr → Ptr) → Ptr → Ptr → List Ptr → Type 0
Seg next pre a b [] = (next a ≡ b) × (pre b ≡ a)
Seg next pre a b (p ∷ xs) = (next a ≡ p) × (pre p ≡ a) × Seg next pre p b xs
