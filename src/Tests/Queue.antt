-- ===== src/Tests/Queue.antt =====
-- The theorems on the queues: the ring of 64 bytes, and the linked queue.
use ttserver.Base.{List, mem, erase, ◌≡◌, refl, arith, [], ◌∷◌, some, replicate}
use ttserver.Ring.Defs.{RingQueue, new_ring}
use ttserver.Ring.Queue.{Holds}
use ttserver.Ring.Create.{new_ring-Holds}
use ttserver.Ring.Refine.{put, get, spec_run, ring_run, run_refines}
use ttserver.SendQueue.{new_queue, front, back}
use ttserver.SendQueue.Refine.{Op, run, run_list, walk, last_or, IsAllowed, IsAllowedStep, run-walk}
use ttserver.Tests.Demo.{zero_mem}

abbrev small_ring : RingQueue
small_ring = new_ring zero_mem 64

small_ring-Holds : Holds small_ring []
small_ring-Holds = (new_ring-Holds zero_mem 64 (omega arith) (omega arith)).0

run_refines_example :
    ring_run small_ring (put (1 ∷ 2 ∷ []) ∷ put (replicate 60 7) ∷ get ∷ get ∷ [])
    ≡ some (spec_run 64 [] (put (1 ∷ 2 ∷ []) ∷ put (replicate 60 7) ∷ get ∷ get ∷ []))
unfolding new_ring
run_refines_example =
    run_refines (put (1 ∷ 2 ∷ []) ∷ put (replicate 60 7) ∷ get ∷ get ∷ []) small_ring [] 64
      small_ring-Holds (omega arith, (omega arith, tt)) refl

-- The nodes at the addresses 5, 6 and 7, with the sentinel at 1.
abbrev ops : List Op
ops = Op.push 5 ∷ Op.push 6 ∷ Op.push 7 ∷ Op.del_node 6 ∷ Op.pop ∷ Op.push 6 ∷ []

run-walk_example :
    let q = run ops (new_queue 1 zero_mem zero_mem) in
    (walk q.next q.size (front q) ≡ 7 ∷ 6 ∷ []) × (q.size ≡ 2) × (back q ≡ 6)
unfolding run_list erase last_or IsAllowed IsAllowedStep mem
run-walk_example = run-walk ops 1 zero_mem zero_mem (
  (refl, omega arith),
  ((refl, omega arith), ((refl, omega arith), (refl, (tt, ((refl, omega arith), tt))))),
)
