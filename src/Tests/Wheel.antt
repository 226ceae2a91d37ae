-- ===== src/Tests/Wheel.antt =====
-- The theorems on the timer wheel, at a wheel of four slots of ten milliseconds.
use ttserver.Base.{◌≡◌, refl, arith, true, false, [], ◌∷◌, some, none, pos}
use ttserver.TimeWheel.{
  Timer, TimeWheel, new_wheel, add_timer, del_timer, excute_cur_slot_task, slot_at, put_slot,
}
use ttserver.TimeWheel.Slots.{IsWheel}
use ttserver.TimeWheel.Repeats.{is_single, excute_cur_slot_task-single}
use ttserver.TimeWheel.Runs.{stop, step, added, deleted, Run-IsWheel}

abbrev demo_wheel : TimeWheel
demo_wheel = (add_timer (new_wheel 4 10 100) 1 (pos 25) false).1

Run-IsWheel_example : IsWheel 4 (del_timer demo_wheel none)
Run-IsWheel_example =
    Run-IsWheel 4 10 100 (del_timer demo_wheel none) (omega arith)
      (step (added 1 (pos 25) false) (step (deleted none) stop))

-- A task every twenty milliseconds.
abbrev every_twenty : Timer
every_twenty = record { id = 1; rotations = 0; slot = 0; timeout = 20; repeated = true }

abbrev repeating_wheel : TimeWheel
repeating_wheel = record {
  slot_num = 4;
  cur_slot = 0;
  precision = 10;
  last_time = 100;
  slots = (every_twenty ∷ []) ∷ [] ∷ [] ∷ [] ∷ [];
}

abbrev once_wheel : TimeWheel
once_wheel = record repeating_wheel {
  slots = (record every_twenty { repeated = false } ∷ []) ∷ [] ∷ [] ∷ [] ∷ [];
}

excute_cur_slot_task-single_example :
    excute_cur_slot_task 2 once_wheel
    ≡ some (1 ∷ [], record once_wheel { slots = [] ∷ [] ∷ [] ∷ [] ∷ []; cur_slot = 1 })
unfolding slot_at put_slot is_single
excute_cur_slot_task-single_example = excute_cur_slot_task-single once_wheel 2 refl (omega arith)
