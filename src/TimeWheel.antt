-- ===== src/TimeWheel.antt =====
-- `TimeWheel` of src/time/TimeWheel.h and src/time/TimeWheel.cpp. A task only counts as run: what it
-- does is not modelled, and it does not call the wheel.
pub mod Slots
pub mod Repeats
pub mod Runs
use ttserver.Base.{
  ℕ, zero, suc, ◌+◌, ◌-◌, ◌*◌, ◌/◌, ◌%◌, ◌^◌, Bool, true, false, not, ◌&&◌, List, [], ◌∷◌, ◌++◌,
  Option, none, some, ltb, ◌==◌, if◌then◌else◌, ℤ, pos, negsuc, replicate,
}

-- `Timer`; `id` stands for its address, `rotations` is the bit pattern of an `int`.
pub record Timer : Type 0 where
  pub id : ℕ
  pub rotations : ℕ
  pub slot : ℕ
  pub timeout : ℕ
  pub repeated : Bool

pub record TimeWheel : Type 0 where
  pub slot_num : ℕ
  pub cur_slot : ℕ
  pub precision : ℕ
  pub last_time : ℕ
  pub slots : List (List Timer)

-- The constructor.
unfoldable pub new_wheel : ℕ → ℕ → ℕ → TimeWheel
new_wheel slot_num precision now = record {
  slot_num = slot_num;
  cur_slot = 0;
  precision = precision;
  last_time = now;
  slots = replicate slot_num [];
}

-- `m_vecSlots[i]`, read and written.
unfoldable pub slot_at : ℕ → List (List Timer) → List Timer
slot_at i [] = []
slot_at zero (s ∷ ss) = s
slot_at (suc i) (s ∷ ss) = slot_at i ss

unfoldable pub put_slot : ℕ → List Timer → List (List Timer) → List (List Timer)
put_slot i t [] = []
put_slot zero t (s ∷ ss) = t ∷ ss
put_slot (suc i) t (s ∷ ss) = s ∷ put_slot i t ss

unfoldable pub rotation_of : TimeWheel → ℕ → ℕ
rotation_of w timeout = timeout / (w.slot_num * w.precision) % 2 ^ 32

unfoldable pub slot_of : TimeWheel → ℕ → ℕ
slot_of w timeout = (w.cur_slot + timeout % (w.slot_num * w.precision) % w.precision) % w.slot_num

unfoldable pub push_back : Timer → List (List Timer) → List (List Timer)
push_back t ss = put_slot t.slot (slot_at t.slot ss ++ t ∷ []) ss

-- The timer's slot and rotations, set anew.
unfoldable pub armed : TimeWheel → Timer → Timer
armed w t = record t { rotations = rotation_of w t.timeout; slot = slot_of w t.timeout }

-- The public `AddTimer`, with the address of the new timer.
unfoldable pub add_timer : TimeWheel → ℕ → ℤ → Bool → Option Timer × TimeWheel
add_timer w id (negsuc n) repeated = (none, w)
add_timer w id (pos timeout) repeated =
    let t : Timer = record {
      id = id;
      rotations = rotation_of w timeout;
      slot = slot_of w timeout;
      timeout = timeout;
      repeated = repeated;
    } in
    (some t, record w { slots = push_back t w.slots })

unfoldable pub erase_timer : ℕ → List Timer → List Timer
erase_timer i [] = []
erase_timer i (t ∷ ts) = if t.id == i then ts else t ∷ erase_timer i ts

-- `DelTimer`; a null pointer is `none`.
unfoldable pub del_timer : TimeWheel → Option Timer → TimeWheel
del_timer w none = w
del_timer w (some t) = record w {
  slots = put_slot t.slot (erase_timer t.id (slot_at t.slot w.slots)) w.slots;
}

abbrev pub is_waiting : Timer → Bool
is_waiting t = not (t.rotations == 0) && ltb t.rotations (2 ^ 31)

-- A visit to a timer of the present slot: the ids of the tasks that run, what stays in front, what is
-- still to be visited, the other slots. A repeated timer may be put at the end of the very list.
abbrev pub Visit : Type 0
Visit = List ℕ × List Timer × List Timer × List (List Timer)

abbrev pub put_again : TimeWheel → Timer → List Timer → List Timer → List (List Timer) → Visit
put_again w r kept todo ss =
    if r.slot == w.cur_slot
    then (r.id ∷ [], kept, todo ++ r ∷ [], ss)
    else (r.id ∷ [], kept, todo, push_back r ss)

unfoldable pub visit : TimeWheel → Timer → List Timer → List Timer → List (List Timer) → Visit
visit w t kept todo ss =
    if is_waiting t
    then ([], kept ++ record t { rotations = t.rotations - 1 } ∷ [], todo, ss)
    else if t.repeated
    then put_again w (armed w t) kept todo ss
    else (t.id ∷ [], kept, todo, ss)

-- The result of a slot: the ids of the tasks that ran, in order, and the slots.
abbrev pub Ran : Type 0
Ran = Option (List ℕ × List (List Timer))

abbrev pub ran : List ℕ → Ran → Ran
ran ids none = none
ran ids (some (more, ss)) = some (ids ++ more, ss)

-- The loop of `ExcuteCurSlotTask`. `none`: the fuel is used up.
unfoldable pub excute_list : TimeWheel → ℕ → List Timer → List Timer → List (List Timer) → Ran
excute_list w zero kept todo ss = none
excute_list w (suc fuel) kept [] ss = some ([], put_slot w.cur_slot kept ss)
excute_list w (suc fuel) kept (t ∷ ts) ss =
    let v = visit w t kept ts ss in ran v.0 (excute_list w fuel v.1 v.2 v.3)

abbrev pub turned : TimeWheel → Option (List ℕ × List (List Timer)) → Option (List ℕ × TimeWheel)
turned w none = none
turned w (some (ids, ss)) =
    some (ids, record w { slots = ss; cur_slot = (w.cur_slot + 1) % w.slot_num })

-- `ExcuteCurSlotTask`.
unfoldable pub excute_cur_slot_task : ℕ → TimeWheel → Option (List ℕ × TimeWheel)
excute_cur_slot_task fuel w = turned w (excute_list w fuel [] (slot_at w.cur_slot w.slots) w.slots)

abbrev pub and_ran : List ℕ → Option (List ℕ × TimeWheel) → Option (List ℕ × TimeWheel)
and_ran ids none = none
and_ran ids (some (more, w)) = some (ids ++ more, w)

unfoldable pub excute_slots : ℕ → ℕ → TimeWheel → Option (List ℕ × TimeWheel)
excute_slots fuel zero w = some ([], w)
excute_slots fuel (suc n) w = elim (excute_cur_slot_task fuel w) [
  | none ↦ none
  | some after ↦ and_ran after.0 (excute_slots fuel n after.1)
]

abbrev pub at_time : ℕ → Option (List ℕ × TimeWheel) → Option (List ℕ × TimeWheel)
at_time now none = none
at_time now (some (ids, w)) = some (ids, record w { last_time = now })

-- `Tick`: as many slots as whole periods have passed. A time before the last one counts as none.
unfoldable pub tick : ℕ → TimeWheel → ℕ → Option (List ℕ × TimeWheel)
tick fuel w now =
    let n = (now - w.last_time) / w.precision in
    if ltb 0 n then at_time now (excute_slots fuel n w) else some ([], w)
