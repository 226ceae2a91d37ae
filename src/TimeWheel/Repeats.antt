-- ===== src/TimeWheel/Repeats.antt =====
-- When the loop over a slot ends, and when it does not.
use ttserver.Base.{
  ℕ, zero, suc, ◌+◌, ◌-◌, ◌%◌, ◌≡◌, ◌<◌, sym, ap, arith, append-nil, append_assoc, Bool, true,
  false, not, ◌&&◌, List, [], ◌∷◌, ◌++◌, some, ◌==◌, if◌then◌else◌, length,
}
use ttserver.TimeWheel.{
  Timer, TimeWheel, visit, is_waiting, rotation_of, slot_of, excute_list, excute_cur_slot_task,
  turned, slot_at, put_slot,
}

-- A repeated timer that is due, and due again as soon as it is put back.
abbrev is_endless : TimeWheel → Timer → Bool
is_endless w t =
    t.repeated
    && (not (is_waiting t) && (slot_of w t.timeout == w.cur_slot && rotation_of w t.timeout == 0))

unfoldable pub has_endless : TimeWheel → List Timer → Bool
has_endless w [] = false
has_endless w (t ∷ ts) = let rest = has_endless w ts in if is_endless w t then true else rest

-- Without repeated timers one round for each is enough.
unfoldable pub is_single : List Timer → Bool
is_single [] = true
is_single (t ∷ ts) = if t.repeated then false else is_single ts

abbrev pub ids_due : List Timer → List ℕ
ids_due [] = []
ids_due (t ∷ ts) = let rest = ids_due ts in if is_waiting t then rest else t.id ∷ rest

abbrev pub still_waiting : List Timer → List Timer
still_waiting [] = []
still_waiting (t ∷ ts) =
    let rest = still_waiting ts in
    if is_waiting t then record t { rotations = t.rotations - 1 } ∷ rest else rest

excute_list-single :
    (w : TimeWheel) (fuel : ℕ) (kept todo : List Timer) (ss : List (List Timer))
    → is_single todo ≡ true
    → length todo < fuel
    → excute_list w fuel kept todo ss
      ≡ some (ids_due todo, put_slot w.cur_slot (kept ++ still_waiting todo) ss)
unfolding excute_list visit is_single
excute_list-single w zero kept todo ss e l = absurd (omega arith)
excute_list-single w (suc fuel) kept [] ss e l =
    ap (λ k. some ([], put_slot w.cur_slot k ss)) (sym (append-nil kept))
excute_list-single w (suc fuel) kept (t ∷ ts) ss e l =
    let less : Timer = record t { rotations = t.rotations - 1 } in
    let front = append_assoc kept (less ∷ []) (still_waiting ts) in
    let one : is_single ts ≡ true = ground (arith, e) in
    let wait = excute_list-single w fuel (kept ++ less ∷ []) ts ss one (omega (arith, l)) in
    let next = excute_list-single w fuel kept ts ss one (omega (arith, l)) in
    ground (arith, e, front, wait, next)

-- Where the present slot has no repeated timer, ExcuteCurSlotTask ends with one round more than
-- there are timers in the slot: the tasks of the timers with no rotations left run, in order, the
-- others stay with one rotation less, and the wheel turns to the next slot.
pub excute_cur_slot_task-single :
    (w : TimeWheel) (fuel : ℕ)
    → is_single (slot_at w.cur_slot w.slots) ≡ true
    → length (slot_at w.cur_slot w.slots) < fuel
    → excute_cur_slot_task fuel w
      ≡ some (
        ids_due (slot_at w.cur_slot w.slots),
        record w {
          slots = put_slot w.cur_slot (still_waiting (slot_at w.cur_slot w.slots)) w.slots;
          cur_slot = (w.cur_slot + 1) % w.slot_num;
        },
      )
unfolding excute_cur_slot_task
excute_cur_slot_task-single w fuel e l =
    ap (turned w) (excute_list-single w fuel [] (slot_at w.cur_slot w.slots) w.slots e l)
