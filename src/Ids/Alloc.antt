-- ===== src/Ids/Alloc.antt =====
-- What `AllocID` promises of the ids.
use ttserver.Base.{
  ℕ, zero, suc, ◌+◌, ◌-◌, ◌%◌, ◌^◌, ◌<◌, ◌≡◌, ◌≢◌, refl, subst, sym, ap, arith, Bool, true, false,
  List, [], ◌∷◌, Option, some,
}
use ttserver.Ids.{Ids, set_find, set_insert, set_erase, search_id, alloc_id, allocated, free_id}

set_find-set_insert : (k : ℕ) (s : List ℕ) → set_find k (set_insert k s) ≡ true
unfolding set_find set_insert
set_find-set_insert k s = ground arith

set_find-set_insert_other :
    (k i : ℕ) (s : List ℕ) → k ≢ i → set_find i (set_insert k s) ≡ set_find i s
unfolding set_find set_insert
set_find-set_insert_other k i s n = ground arith

set_find-set_erase : (k : ℕ) (s : List ℕ) → set_find k (set_erase k s) ≡ false
unfolding set_find set_erase
set_find-set_erase k [] = refl
set_find-set_erase k (j ∷ s) = ground (arith, set_find-set_erase k s)

-- Where the search says so, the id is free.
search_id-free :
    (n : ℕ) (s : List ℕ) (cur : ℕ)
    → (search_id n s cur).0 ≡ true
    → set_find (search_id n s cur).1 s ≡ false
unfolding search_id
search_id-free zero s cur e = absurd (ground arith)
search_id-free (suc zero) s cur e = ground arith
search_id-free (suc (suc n)) s cur e = ground (arith, search_id-free (suc n) s ((cur + 1) % 2 ^ 32))

search_id-first :
    (n : ℕ) (s : List ℕ) (cur : ℕ) → set_find cur s ≡ false → search_id (suc n) s cur ≡ (true, cur)
unfolding search_id
search_id-first zero s cur f = ground arith
search_id-first (suc n) s cur f = ground arith

-- The search finds an id if one of those within its rounds is free.
search_id-finds :
    (n k : ℕ) (s : List ℕ) (cur : ℕ)
    → cur < 2 ^ 32
    → k < n
    → set_find ((cur + k) % 2 ^ 32) s ≡ false
    → (search_id n s cur).0 ≡ true
unfolding search_id
search_id-finds zero k s cur w l f = absurd (omega arith)
search_id-finds (suc n) zero s cur w l f =
    let same : (cur + 0) % 2 ^ 32 ≡ cur = omega arith in
    ap (λ o. o.0) (search_id-first n s cur (subst (λ i. set_find i s ≡ false) same f))
search_id-finds (suc zero) (suc k) s cur w l f = absurd (omega arith)
search_id-finds (suc (suc n)) (suc k) s cur w l f =
    let i = (cur + 1) % 2 ^ 32 in
    let same : (cur + suc k) % 2 ^ 32 ≡ (i + k) % 2 ^ 32 = omega arith in
    let later =
      search_id-finds (suc n) k s i (omega arith) (omega arith)
        (subst (λ j. set_find j s ≡ false) same f) in
    ground (arith, later)

-- An id that was not in use and is now, while nothing else has changed.
abbrev pub IsFresh : Ids → Option ℕ × Ids → Type 0
IsFresh m (o, m') =
    (i : ℕ) × (o ≡ some i)
    × (set_find i m.exist_id ≡ false)
    × (set_find i m'.exist_id ≡ true)
    × ((j : ℕ) → j ≢ i → set_find j m'.exist_id ≡ set_find j m.exist_id)

allocated-IsFresh :
    (m : Ids) (o : Bool × ℕ)
    → o.0 ≡ true
    → set_find o.1 m.exist_id ≡ false
    → IsFresh m (allocated m o)
allocated-IsFresh m (true, i) e f = (
  i,
  refl,
  f,
  set_find-set_insert i m.exist_id,
  λ j n. set_find-set_insert_other i j m.exist_id (λ e. n (sym e)),
)
allocated-IsFresh m (false, i) e f = absurd (ground arith)

-- If the current id is a 32-bit word and one of the 2 ^ 32 - 1 ids from it on, counted round, is
-- free, AllocID succeeds: the id that it gives was not in use and is now, and every other id is
-- as it was.
pub alloc_id-IsFresh :
    (m : Ids) (k : ℕ)
    → m.cur_id < 2 ^ 32
    → k < 2 ^ 32 - 1
    → set_find ((m.cur_id + k) % 2 ^ 32) m.exist_id ≡ false
    → IsFresh m (alloc_id m)
unfolding alloc_id
alloc_id-IsFresh m k w l f =
    let found = search_id-finds (2 ^ 32 - 1) k m.exist_id m.cur_id w l f in
    allocated-IsFresh m (search_id (2 ^ 32 - 1) m.exist_id m.cur_id) found
      (search_id-free (2 ^ 32 - 1) m.exist_id m.cur_id found)

allocated-cur_id :
    (m : Ids) (o : Bool × ℕ) (i : ℕ) → (allocated m o).0 ≡ some i → (allocated m o).1.cur_id ≡ i
allocated-cur_id m (true, j) i e = ground arith
allocated-cur_id m (false, j) i e = absurd (ground arith)

alloc_id-cur_id : (m : Ids) (i : ℕ) → (alloc_id m).0 ≡ some i → (alloc_id m).1.cur_id ≡ i
unfolding alloc_id
alloc_id-cur_id m i e = allocated-cur_id m (search_id (2 ^ 32 - 1) m.exist_id m.cur_id) i e

alloc_id-free_id : (m : Ids) → (alloc_id (free_id m m.cur_id)).0 ≡ some m.cur_id
unfolding alloc_id free_id
alloc_id-free_id m =
    ap (λ o. (allocated (free_id m m.cur_id) o).0)
      (search_id-first (2 ^ 32 - 2) (set_erase m.cur_id m.exist_id) m.cur_id
        (set_find-set_erase m.cur_id m.exist_id))

-- If AllocID gives an id and that id is freed at once, the next AllocID gives the same id.
alloc_id-reused :
    (m : Ids) (i : ℕ) → (alloc_id m).0 ≡ some i → (alloc_id (free_id (alloc_id m).1 i)).0 ≡ some i
alloc_id-reused m i e =
    subst (λ j. (alloc_id (free_id (alloc_id m).1 j)).0 ≡ some j) (alloc_id-cur_id m i e)
      (alloc_id-free_id (alloc_id m).1)
