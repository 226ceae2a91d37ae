-- ===== src/SendQueue/Refine.antt =====
-- src/net/SendQueue.cpp against a list: runs of `Push`, `Pop` and `DelNode`.
use ttserver.Base.{
  ℕ, zero, suc, subst, ◌<◌, ◌^◌, ◌≡◌, refl, true, false, mem, erase, List, [], ◌∷◌, ◌++◌, arith,
  length, length-append,
}
use ttserver.SendQueue.{Ptr, SendQueue, put, front, back, is_empty, new_queue, add_tail, del}
use ttserver.SendQueue
use ttserver.SendQueue.Chain.{Distinct, Seg}
use ttserver.SendQueue.Links.{mem-erase, length-erase, Distinct-snoc, Distinct-erase, mem-snoc}
use ttserver.SendQueue.Links.{Seg-snoc, Seg-erase}

-- The queue is the list `xs`: its links lead round from the sentinel over `xs`, no node stands twice,
-- and the size is the length.
unfoldable pub Holds : SendQueue → List Ptr → Type 0
Holds q xs =
    Seg q.next q.pre q.head q.head xs
    × Distinct (q.head ∷ xs)
    × (q.size ≡ length xs)
    × (length xs < 2 ^ 64)

-- A call on the queue.
pub data Op : Type 0 where
  push : Ptr → Op
  pop : Op
  del_node : Ptr → Op

abbrev step : Op → SendQueue → SendQueue
step (push p) q = SendQueue.push q p
step pop q = SendQueue.pop q
step (del_node p) q = SendQueue.del_node q p

unfoldable pub run : List Op → SendQueue → SendQueue
run [] q = q
run (op ∷ ops) q = run ops (step op q)

-- The same calls on a list.
abbrev pub tail_of : List Ptr → List Ptr
tail_of [] = []
tail_of (_ ∷ xs) = xs

abbrev pub list_step : Op → List Ptr → List Ptr
list_step (push p) xs = xs ++ p ∷ []
list_step pop xs = tail_of xs
list_step (del_node p) xs = erase p xs

unfoldable pub run_list : List Op → List Ptr → List Ptr
run_list [] xs = xs
run_list (op ∷ ops) xs = run_list ops (list_step op xs)

-- A node is pushed only while it is not in the queue, and deleted only while it is.
unfoldable pub IsAllowedStep : Ptr → Op → List Ptr → Type 0
IsAllowedStep head (push p) xs = (mem p (head ∷ xs) ≡ false) × (suc (length xs) < 2 ^ 64)
IsAllowedStep head pop xs = Unit
IsAllowedStep head (del_node p) xs = mem p xs ≡ true

unfoldable pub IsAllowed : Ptr → List Op → List Ptr → Type 0
IsAllowed head [] xs = Unit
IsAllowed head (op ∷ ops) xs = IsAllowedStep head op xs × IsAllowed head ops (list_step op xs)

-- `n` nodes by `Next` from `p` on.
unfoldable pub walk : (Ptr → Ptr) → ℕ → Ptr → List Ptr
walk next zero p = []
walk next (suc n) p = p ∷ walk next n (next p)

-- The last node, or the sentinel.
unfoldable pub last_or : List Ptr → Ptr → Ptr
last_or [] d = d
last_or (p ∷ xs) d = last_or xs p

push-Holds :
    (q : SendQueue) (p : Ptr) (xs : List Ptr)
    → Holds q xs
    → mem p (q.head ∷ xs) ≡ false
    → suc (length xs) < 2 ^ 64
    → Holds (SendQueue.push q p) (xs ++ p ∷ [])
unfolding Holds SendQueue.push add_tail mem Distinct
push-Holds q p xs (links, distinct, count, bound) out room =
    let same : put q.pre p (q.pre q.head) q.head ≡ q.pre q.head = ground arith in
    (
      rw same (
          Seg-snoc q.next q.pre q.head q.head p (q.pre q.head) xs links refl distinct out distinct.0
            (ground arith)),
      (
        ground (arith, mem-snoc q.head p xs, distinct.0),
        Distinct-snoc p xs distinct.1 (ground arith),
      ),
      omega (arith, length-append xs (p ∷ [])),
      omega (arith, length-append xs (p ∷ [])),
    )

del_node-Holds :
    (q : SendQueue) (p : Ptr) (xs : List Ptr)
    → Holds q xs
    → mem p xs ≡ true
    → Holds (SendQueue.del_node q p) (erase p xs)
unfolding Holds SendQueue.del_node del Distinct
del_node-Holds q p xs (links, distinct, count, bound) here =
    let same : put q.next (q.pre p) (q.next p) p ≡ q.next p = ground arith in
    (
      rw same (Seg-erase q.next q.pre q.head q.head p xs links distinct distinct.0 here),
      (mem-erase q.head p xs distinct.0, Distinct-erase p xs distinct.1),
      omega (arith, length-erase p xs here),
      omega (arith, length-erase p xs here),
    )

pop-Holds : (q : SendQueue) (xs : List Ptr) → Holds q xs → Holds (SendQueue.pop q) (tail_of xs)
unfolding SendQueue.pop Holds Seg mem erase
pop-Holds q [] h = let none_left : is_empty q ≡ true = ground (arith, h.2) in rw none_left h
pop-Holds q (p ∷ xs) h =
    let some_left : is_empty q ≡ false = ground (arith, h.2) in
    let first : front q ≡ p = h.0.0 in
    let here : mem p (p ∷ xs) ≡ true = ground arith in
    let rest : erase p (p ∷ xs) ≡ xs = ground arith in
    rw some_left (
      rw first
        (subst (λ r. Holds (SendQueue.del_node q p) r) rest (del_node-Holds q p (p ∷ xs) h here)))

step-Holds :
    (op : Op) (q : SendQueue) (xs : List Ptr)
    → Holds q xs
    → IsAllowedStep q.head op xs
    → Holds (step op q) (list_step op xs)
unfolding IsAllowedStep
step-Holds (push p) q xs h a = push-Holds q p xs h a.0 a.1
step-Holds pop q xs h a = pop-Holds q xs h
step-Holds (del_node p) q xs h a = del_node-Holds q p xs h a

step-head : (op : Op) (q : SendQueue) → (step op q).head ≡ q.head
unfolding SendQueue.push SendQueue.pop SendQueue.del_node add_tail del
step-head (push p) q = refl
step-head pop q = ground arith
step-head (del_node p) q = refl

run-Holds :
    (ops : List Op) (q : SendQueue) (xs : List Ptr)
    → Holds q xs
    → IsAllowed q.head ops xs
    → Holds (run ops q) (run_list ops xs)
unfolding run run_list IsAllowed
run-Holds [] q xs h a = h
run-Holds (op ∷ ops) q xs h a =
    run-Holds ops (step op q) (list_step op xs) (step-Holds op q xs h a.0) (rw (step-head op q) a.1)

module _ (next pre : Ptr → Ptr) where
  walk-Seg : (a b : Ptr) (xs : List Ptr) → Seg next pre a b xs → walk next (length xs) (next a) ≡ xs
  unfolding walk Seg
  walk-Seg a b [] s = refl
  walk-Seg a b (p ∷ xs) s = rw (s.0, walk-Seg p b xs s.2) refl

  last_or-Seg : (a b : Ptr) (xs : List Ptr) → Seg next pre a b xs → pre b ≡ last_or xs a
  unfolding last_or Seg
  last_or-Seg a b [] s = s.1
  last_or-Seg a b (p ∷ xs) s = last_or-Seg p b xs s.2

module _ (q : SendQueue) (xs : List Ptr) (h : Holds q xs) where
  walk-Holds : walk q.next q.size (front q) ≡ xs
  unfolding Holds
  walk-Holds = rw h.2 (walk-Seg q.next q.pre q.head q.head xs h.0)

  back-Holds : back q ≡ last_or xs q.head
  unfolding Holds
  back-Holds = last_or-Seg q.next q.pre q.head q.head xs h.0

  size-Holds : q.size ≡ length xs
  unfolding Holds
  size-Holds = h.2

new_queue-Holds : (head : Ptr) (pre next : Ptr → Ptr) → Holds (new_queue head pre next) []
unfolding new_queue Holds Seg Distinct mem
new_queue-Holds head pre next = (ground arith, (refl, tt), refl, omega arith)

-- For every run of Push, Pop and DelNode on a new queue in which only nodes that are not in it
-- are pushed, only nodes in it are deleted, and fewer than 2 ^ 64 are in it at a time: the size
-- is that of the list on which the same calls append, drop the first and erase, walking as many
-- nodes by Next from Front gives this list, and Back is its last node or, if it is empty, the
-- sentinel.
pub run-walk :
    (ops : List Op) (head : Ptr) (pre next : Ptr → Ptr)
    → IsAllowed head ops []
    → let q = run ops (new_queue head pre next) in
      let xs = run_list ops [] in
      (walk q.next q.size (front q) ≡ xs) × (q.size ≡ length xs) × (back q ≡ last_or xs q.head)
unfolding new_queue
run-walk ops head pre next a =
    let h = run-Holds ops (new_queue head pre next) [] (new_queue-Holds head pre next) a in
    let q = run ops (new_queue head pre next) in
    let xs = run_list ops [] in (walk-Holds q xs h, size-Holds q xs h, back-Holds q xs h)
