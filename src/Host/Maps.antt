-- ===== src/Host/Maps.antt =====
-- The laws of the manager's maps.
use ttserver.Base.{ℕ, ◌≡◌, ◌≢◌, refl, arith, List, [], ◌∷◌, none, some}
use ttserver.Host.{Ptr, map_set, map_erase, map_find}

-- The entry that was written is found.
pub map_find-map_set : (k : ℕ) (v : Ptr) (m : List (ℕ × Ptr)) → map_find k (map_set k v m) ≡ some v
unfolding map_find map_set
map_find-map_set k v [] = ground arith
map_find-map_set k v ((j, w) ∷ m) = ground (arith, map_find-map_set k v m)

-- Another entry is as it was.
pub map_find-map_set_other :
    (k i : ℕ) (v : Ptr) (m : List (ℕ × Ptr)) → k ≢ i → map_find i (map_set k v m) ≡ map_find i m
unfolding map_find map_set
map_find-map_set_other k i v [] n = ground arith
map_find-map_set_other k i v ((j, w) ∷ m) n = ground (arith, map_find-map_set_other k i v m n)

pub map_find-map_erase_other :
    (k i : ℕ) (m : List (ℕ × Ptr)) → k ≢ i → map_find i (map_erase k m) ≡ map_find i m
unfolding map_find map_erase
map_find-map_erase_other k i [] n = refl
map_find-map_erase_other k i ((j, w) ∷ m) n = ground (arith, map_find-map_erase_other k i m n)

-- An erased entry is not found.
pub map_find-map_erase : (k : ℕ) (m : List (ℕ × Ptr)) → map_find k (map_erase k m) ≡ none
unfolding map_find map_erase
map_find-map_erase k [] = refl
map_find-map_erase k ((j, w) ∷ m) = ground (arith, map_find-map_erase k m)
