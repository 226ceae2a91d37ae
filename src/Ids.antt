-- ===== src/Ids.antt =====
-- The connection ids of `NetConnectMgr` (src/net/NetConnectMgr.cpp): `m_setExistID`, `m_ulCurID`,
-- `AllocID`, and the part of `FreeConn` that gives an id back.
pub mod Alloc
use ttserver.Base.{
  ℕ, zero, suc, ◌+◌, ◌-◌, ◌%◌, ◌^◌, Bool, true, false, List, [], ◌∷◌, Option, none, some, ◌==◌,
  if◌then◌else◌,
}
use ttserver.Host.{Ret, succ, fail}

pub record Ids : Type 0 where
  pub exist_id : List ℕ
  pub cur_id : ℕ

-- `Init`.
abbrev pub init_ids : Ids
init_ids = record { exist_id = []; cur_id = 1 }

-- `find`, `insert` and `erase` of an unordered set; its order is not used.
unfoldable pub set_find : ℕ → List ℕ → Bool
set_find k [] = false
set_find k (j ∷ s) = if j == k then true else set_find k s

unfoldable pub set_insert : ℕ → List ℕ → List ℕ
set_insert k s = if set_find k s then s else k ∷ s

unfoldable pub set_erase : ℕ → List ℕ → List ℕ
set_erase k [] = []
set_erase k (j ∷ s) = let rest = set_erase k s in if j == k then rest else j ∷ rest

-- The loop of `AllocID`: how many more rounds the counter allows, and the id that is tried. It gives
-- the id at which it stops, and whether that one is free. The last round does not advance.
unfoldable pub search_id : ℕ → List ℕ → ℕ → Bool × ℕ
search_id zero s cur = (false, cur)
search_id (suc rounds) s cur = elim (set_find cur s) [
  | false ↦ (true, cur)
  | true ↦ elim rounds [ zero ↦ (false, cur) | suc n ↦ search_id rounds s ((cur + 1) % 2 ^ 32) ]
]

abbrev pub allocated : Ids → Bool × ℕ → Option ℕ × Ids
allocated m (true, i) = (some i, record { exist_id = set_insert i m.exist_id; cur_id = i })
allocated m (false, i) = (none, record m { cur_id = i })

-- `AllocID`; `none` is the result -1.
unfoldable pub alloc_id : Ids → Option ℕ × Ids
alloc_id m = allocated m (search_id (2 ^ 32 - 1) m.exist_id m.cur_id)

-- `FreeConn`: the id of the deleted connection.
unfoldable pub free_id : Ids → ℕ → Ids
free_id m i = record m { exist_id = set_erase i m.exist_id }
