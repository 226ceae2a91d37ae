-- ===== src/TimeWheel/Slots.antt =====
-- Every timer stands in the slot that it names.
use ttserver.Base.{
  ℕ, zero, suc, ◌+◌, ◌-◌, ◌≡◌, ◌<◌, refl, sym, ap, subst, arith, Bool, true, ◌&&◌, List, [], ◌∷◌,
  ◌++◌, none, some, ◌==◌, length,
}
use ttserver.TimeWheel.{
  Timer, TimeWheel, Ran, ran, visit, armed, push_back, excute_list, slot_at, put_slot, erase_timer,
}

pub zero_plus : (n : ℕ) → n ≡ 0 + n
zero_plus n = omega arith

unfoldable pub all_at : ℕ → List Timer → Bool
all_at i [] = true
all_at i (t ∷ ts) = t.slot == i && all_at i ts

-- The slots from the index `i` on.
unfoldable pub all_placed : ℕ → List (List Timer) → Bool
all_placed i [] = true
all_placed i (s ∷ ss) = all_at i s && all_placed (suc i) ss

-- The wheel has `n` slots, its index is one of them, and so is that of every timer.
pub record IsWheel (n : ℕ) (w : TimeWheel) : Type 0 where
  pub num : w.slot_num ≡ n
  pub count : length w.slots ≡ w.slot_num
  pub cur : w.cur_slot < w.slot_num
  pub placed : all_placed 0 w.slots ≡ true

all_at-append :
    (i : ℕ) (ts us : List Timer)
    → all_at i ts ≡ true
    → all_at i us ≡ true
    → all_at i (ts ++ us) ≡ true
unfolding all_at
all_at-append i [] us a b = b
all_at-append i (t ∷ ts) us a b = ground (arith, a, b, all_at-append i ts us)

pub all_at-erase_timer :
    (i id : ℕ) (ts : List Timer) → all_at i ts ≡ true → all_at i (erase_timer id ts) ≡ true
unfolding all_at erase_timer
all_at-erase_timer i id [] a = refl
all_at-erase_timer i id (t ∷ ts) a = ground (arith, a, all_at-erase_timer i id ts)

pub length-put_slot :
    (i : ℕ) (t : List Timer) (ss : List (List Timer)) → length (put_slot i t ss) ≡ length ss
unfolding put_slot
length-put_slot i t [] = refl
length-put_slot zero t (s ∷ ss) = refl
length-put_slot (suc i) t (s ∷ ss) = ap suc (length-put_slot i t ss)

pub all_placed-put_slot :
    (k i : ℕ) (t : List Timer) (ss : List (List Timer))
    → all_at (k + i) t ≡ true
    → all_placed k ss ≡ true
    → all_placed k (put_slot i t ss) ≡ true
unfolding put_slot all_placed
all_placed-put_slot k i t [] a p = refl
all_placed-put_slot k zero t (s ∷ ss) a p =
    let same : k + 0 ≡ k = omega arith in
    let b : all_at k t ≡ true = subst (λ n. all_at n t ≡ true) same a in ground (arith, b, p)
all_placed-put_slot k (suc i) t (s ∷ ss) a p =
    let same : k + suc i ≡ suc k + i = omega arith in
    let b : all_at (suc k + i) t ≡ true = subst (λ n. all_at n t ≡ true) same a in
    ground (arith, p, all_placed-put_slot (suc k) i t ss b)

pub all_at-slot_at :
    (k i : ℕ) (ss : List (List Timer))
    → all_placed k ss ≡ true
    → all_at (k + i) (slot_at i ss) ≡ true
unfolding slot_at all_placed all_at
all_at-slot_at k i [] p = refl
all_at-slot_at k zero (s ∷ ss) p =
    let same : k ≡ k + 0 = omega arith in
    let b : all_at k s ≡ true = ground (arith, p) in subst (λ n. all_at n s ≡ true) same b
all_at-slot_at k (suc i) (s ∷ ss) p =
    let same : suc k + i ≡ k + suc i = omega arith in
    let b : all_placed (suc k) ss ≡ true = ground (arith, p) in
    subst (λ n. all_at n (slot_at i ss) ≡ true) same (all_at-slot_at (suc k) i ss b)

-- A timer that is put at the end of its slot.
pub all_placed-push_back :
    (t : Timer) (ss : List (List Timer))
    → all_placed 0 ss ≡ true
    → all_placed 0 (push_back t ss) ≡ true
unfolding push_back all_at
all_placed-push_back t ss p =
    let here : 0 + t.slot ≡ t.slot = omega arith in
    let own : all_at t.slot (t ∷ []) ≡ true = ground arith in
    let old : all_at t.slot (slot_at t.slot ss) ≡ true =
      subst (λ n. all_at n (slot_at t.slot ss) ≡ true) here (all_at-slot_at 0 t.slot ss p) in
    let whole : all_at (0 + t.slot) (slot_at t.slot ss ++ t ∷ []) ≡ true =
      subst (λ n. all_at n (slot_at t.slot ss ++ t ∷ []) ≡ true) (sym here)
        (all_at-append t.slot (slot_at t.slot ss) (t ∷ []) old own) in
    all_placed-put_slot 0 t.slot (slot_at t.slot ss ++ t ∷ []) ss whole p

module _ (w : TimeWheel) where
  visit-kept :
      (t : Timer) (kept ts : List Timer) (ss : List (List Timer))
      → all_at w.cur_slot kept ≡ true
      → all_at w.cur_slot (t ∷ ts) ≡ true
      → all_at w.cur_slot (visit w t kept ts ss).1 ≡ true
  unfolding visit all_at
  visit-kept t kept ts ss a b =
      let less : Timer = record t { rotations = t.rotations - 1 } in
      let own : all_at w.cur_slot (less ∷ []) ≡ true = ground (arith, b) in
      let longer = all_at-append w.cur_slot kept (less ∷ []) a own in ground (arith, a, longer)

  visit-todo :
      (t : Timer) (kept ts : List Timer) (ss : List (List Timer))
      → all_at w.cur_slot (t ∷ ts) ≡ true
      → all_at w.cur_slot (visit w t kept ts ss).2 ≡ true
  unfolding visit all_at armed
  visit-todo t kept ts ss b = ground (arith, b, all_at-append w.cur_slot ts (armed w t ∷ []))

  visit-placed :
      (t : Timer) (kept ts : List Timer) (ss : List (List Timer))
      → all_placed 0 ss ≡ true
      → all_placed 0 (visit w t kept ts ss).3 ≡ true
  unfolding visit
  visit-placed t kept ts ss p = ground (arith, p, all_placed-push_back (armed w t) ss p)

  visit-length :
      (t : Timer) (kept ts : List Timer) (ss : List (List Timer))
      → length (visit w t kept ts ss).3 ≡ length ss
  unfolding visit push_back
  visit-length t kept ts ss =
      let r = armed w t in ground (arith, length-put_slot r.slot (slot_at r.slot ss ++ r ∷ []) ss)

  -- What a loop that ends leaves.
  unfoldable pub IsRan : ℕ → Ran → Type 0
  IsRan n none = Unit
  IsRan n (some (ids, ss)) = (length ss ≡ n) × (all_placed 0 ss ≡ true)

  ran-IsRan : (n : ℕ) (ids : List ℕ) (o : Ran) → IsRan n o → IsRan n (ran ids o)
  unfolding IsRan
  ran-IsRan n ids none h = tt
  ran-IsRan n ids (some (more, ss)) h = h

  pub excute_list-IsRan :
      (fuel : ℕ) (kept todo : List Timer) (ss : List (List Timer))
      → all_at w.cur_slot kept ≡ true
      → all_at w.cur_slot todo ≡ true
      → all_placed 0 ss ≡ true
      → IsRan (length ss) (excute_list w fuel kept todo ss)
  unfolding excute_list IsRan
  excute_list-IsRan zero kept todo ss a b p = tt
  excute_list-IsRan (suc fuel) kept [] ss a b p = (
    length-put_slot w.cur_slot kept ss,
    all_placed-put_slot 0 w.cur_slot kept ss
        (subst (λ n. all_at n kept ≡ true) (zero_plus w.cur_slot) a) p,
  )
  excute_list-IsRan (suc fuel) kept (t ∷ ts) ss a b p =
      let v = visit w t kept ts ss in
      let rest =
        excute_list-IsRan fuel v.1 v.2 v.3 (visit-kept t kept ts ss a b) (visit-todo t kept ts ss b)
          (visit-placed t kept ts ss p) in
      ran-IsRan (length ss) v.0 (excute_list w fuel v.1 v.2 v.3)
        (subst (λ n. IsRan n (excute_list w fuel v.1 v.2 v.3)) (visit-length t kept ts ss) rest)
