-- ===== src/TimeWheel/Runs.antt =====
-- Sequences of calls on a wheel.
use native.Mathlib.Nat.{mod-lt}
use ttserver.Base.{
  ℕ, zero, suc, ◌+◌, ◌-◌, ◌/◌, ◌≡◌, ◌<◌, refl, sym, ap, ◌∙◌, subst, arith, Bool, true, false, List,
  [], Option, none, some, ltb, if◌then◌else◌, length, ℤ, pos, negsuc, replicate,
}
use ttserver.TimeWheel.{
  Timer, TimeWheel, Ran, push_back, excute_cur_slot_task, excute_slots, and_ran, at_time, turned,
  tick, slot_at, add_timer, del_timer, erase_timer, new_wheel,
}
use ttserver.TimeWheel.Slots.{
  IsWheel, IsRan, excute_list-IsRan, all_placed, all_at, all_at-erase_timer, all_at-slot_at,
  all_placed-put_slot, all_placed-push_back, length-put_slot, zero_plus,
}

abbrev no_timers : List Timer
no_timers = []

replicate-placed :
    (n i : ℕ) → (length (replicate n no_timers) ≡ n) × (all_placed i (replicate n no_timers) ≡ true)
unfolding all_placed all_at
replicate-placed zero i = (refl, refl)
replicate-placed (suc n) i = let (a, b) = replicate-placed n (suc i) in (ap suc a, b)

new_wheel-IsWheel : (n precision now : ℕ) → 0 < n → IsWheel n (new_wheel n precision now)
unfolding new_wheel
new_wheel-IsWheel n precision now h =
    let (a, b) = replicate-placed n 0 in record { num = refl; count = a; cur = h; placed = b }

add_timer-IsWheel :
    {n : ℕ} (w : TimeWheel) (id : ℕ) (timeout : ℤ) (repeated : Bool)
    → IsWheel n w
    → IsWheel n (add_timer w id timeout repeated).1
unfolding add_timer push_back
add_timer-IsWheel w id (negsuc n) repeated v = v
add_timer-IsWheel w id (pos timeout) repeated v = record {
  num = v.num;
  count = length-put_slot _ _ w.slots ∙ v.count;
  cur = v.cur;
  placed = all_placed-push_back _ w.slots v.placed;
}

del_timer-IsWheel :
    {n : ℕ} (w : TimeWheel) (o : Option Timer) → IsWheel n w → IsWheel n (del_timer w o)
unfolding del_timer
del_timer-IsWheel w none v = v
del_timer-IsWheel w (some t) v = record {
  num = v.num;
  count = length-put_slot t.slot _ w.slots ∙ v.count;
  cur = v.cur;
  placed =
      all_placed-put_slot 0 t.slot (erase_timer t.id (slot_at t.slot w.slots)) w.slots
        (all_at-erase_timer (0 + t.slot) t.id (slot_at t.slot w.slots)
          (all_at-slot_at 0 t.slot w.slots v.placed))
        v.placed;
}

-- What calls that end leave.
unfoldable IsTurned : ℕ → Option (List ℕ × TimeWheel) → Type 0
IsTurned m none = Unit
IsTurned m (some (ids, w)) = IsWheel m w

turned-IsTurned :
    {m : ℕ} (w : TimeWheel) (o : Ran)
    → IsWheel m w
    → IsRan w (length w.slots) o
    → IsTurned m (turned w o)
unfolding IsTurned IsRan
turned-IsTurned w none v r = tt
turned-IsTurned w (some (ids, ss)) v r = record {
  num = v.num;
  count = r.0 ∙ v.count;
  cur = mod-lt (w.cur_slot + 1) (omega (arith, v.cur));
  placed = r.1;
}

excute_cur_slot_task-IsTurned :
    {m : ℕ} (w : TimeWheel) (fuel : ℕ) → IsWheel m w → IsTurned m (excute_cur_slot_task fuel w)
unfolding excute_cur_slot_task all_at
excute_cur_slot_task-IsTurned w fuel v =
    let here : all_at w.cur_slot (slot_at w.cur_slot w.slots) ≡ true =
      subst (λ n. all_at n (slot_at w.cur_slot w.slots) ≡ true) (sym (zero_plus w.cur_slot))
        (all_at-slot_at 0 w.cur_slot w.slots v.placed) in
    turned-IsTurned w _ v
      (excute_list-IsRan w fuel [] (slot_at w.cur_slot w.slots) w.slots refl here v.placed)

and_ran-IsTurned :
    (m : ℕ) (ids : List ℕ) (o : Option (List ℕ × TimeWheel))
    → IsTurned m o
    → IsTurned m (and_ran ids o)
unfolding IsTurned
and_ran-IsTurned m ids none v = tt
and_ran-IsTurned m ids (some (more, w)) v = v

excute_slots-IsTurned :
    {m : ℕ} (fuel n : ℕ) (w : TimeWheel) → IsWheel m w → IsTurned m (excute_slots fuel n w)
unfolding excute_slots IsTurned
excute_slots-IsTurned fuel zero w v = v
excute_slots-IsTurned {m} fuel (suc n) w v =
    elim (excute_cur_slot_task fuel w)
        as (λ o.
          IsTurned m o
          → IsTurned m (elim o [
            | none ↦ none
            | some after ↦ and_ran after.0 (excute_slots fuel n after.1)
          ])) [
            | none ↦ λ h. tt
            | some after ↦ λ h.
                and_ran-IsTurned m after.0 (excute_slots fuel n after.1)
                  (excute_slots-IsTurned fuel n after.1 h)
          ]
      (excute_cur_slot_task-IsTurned w fuel v)

at_time-IsTurned :
    (m : ℕ) (now : ℕ) (o : Option (List ℕ × TimeWheel)) → IsTurned m o → IsTurned m (at_time now o)
unfolding IsTurned
at_time-IsTurned m now none v = tt
at_time-IsTurned m now (some (ids, w)) v = record {
  num = v.num;
  count = v.count;
  cur = v.cur;
  placed = v.placed;
}

tick-IsTurned :
    {m : ℕ} (fuel : ℕ) (w : TimeWheel) (now : ℕ) → IsWheel m w → IsTurned m (tick fuel w now)
unfolding tick IsTurned
tick-IsTurned {m} fuel w now v =
    let n = (now - w.last_time) / w.precision in
    elim (ltb 0 n)
      as (λ b. IsTurned m (if b then at_time now (excute_slots fuel n w) else some ([], w))) [
        | true ↦ at_time-IsTurned m now (excute_slots fuel n w) (excute_slots-IsTurned fuel n w v)
        | false ↦ v
      ]

-- A call on the wheel.
pub data Step : TimeWheel → TimeWheel → Type 0 where
  added :
      {w : TimeWheel} (id : ℕ) (timeout : ℤ) (repeated : Bool)
      → Step w (add_timer w id timeout repeated).1
  deleted : {w : TimeWheel} (o : Option Timer) → Step w (del_timer w o)
  ticked :
      {w w1 : TimeWheel} (fuel now : ℕ) (ids : List ℕ)
      → tick fuel w now ≡ some (ids, w1)
      → Step w w1

pub data Run : TimeWheel → TimeWheel → Type 0 where
  stop : {w : TimeWheel} → Run w w
  step : {w w1 w2 : TimeWheel} → Step w w1 → Run w1 w2 → Run w w2

Step-IsWheel : {n : ℕ} {w w1 : TimeWheel} → Step w w1 → IsWheel n w → IsWheel n w1
unfolding IsTurned
Step-IsWheel (added id timeout repeated) v = add_timer-IsWheel _ id timeout repeated v
Step-IsWheel (deleted o) v = del_timer-IsWheel _ o v
Step-IsWheel {n} (ticked {w} {w1} fuel now ids e) v =
    subst (IsTurned n) e (tick-IsTurned fuel w now v)

Run-kept : {n : ℕ} {w w1 : TimeWheel} → Run w w1 → IsWheel n w → IsWheel n w1
Run-kept stop v = v
Run-kept (step s r) v = Run-kept r (Step-IsWheel s v)

-- Every run of AddTimer, DelTimer and Tick calls that end, from a new wheel with at least one
-- slot, leaves a wheel with as many slots as it was made with, whose present slot is one of them,
-- and in which every timer stands in the slot whose index it names.
pub Run-IsWheel :
    (n precision now : ℕ) (w : TimeWheel) → 0 < n → Run (new_wheel n precision now) w → IsWheel n w
Run-IsWheel n precision now w h r = Run-kept r (new_wheel-IsWheel n precision now h)
