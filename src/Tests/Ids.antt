-- ===== src/Tests/Ids.antt =====
-- The theorems on ids, after one id was given.
use ttserver.Base.{refl, arith, [], ◌∷◌}
use ttserver.Ids.{Ids, set_find, alloc_id}
use ttserver.Ids.Alloc.{IsFresh, alloc_id-IsFresh}

abbrev one_id : Ids
one_id = record { exist_id = 1 ∷ []; cur_id = 1 }

alloc_id-IsFresh_example : IsFresh one_id (alloc_id one_id)
unfolding set_find
alloc_id-IsFresh_example = alloc_id-IsFresh one_id 1 (omega arith) (omega arith) refl
