-- ===== src/Ring/Steps.antt =====
-- `Push` and `Pop` on a ring that holds a list of messages, on each branch.
use ttserver.Bytes.{decode32u}
use ttserver.Base.{
  ℕ, ◌+◌, ◌^◌, ◌≤◌, ◌<◌, ◌≡◌, refl, sym, ap, ◌∙◌, Bool, true, false, List, [], ◌∷◌, ◌++◌, Option,
  none, some, arith, length, if◌then◌else◌,
}
use ttserver.Ring.Defs.{
  is_empty, pop_locked, read_data, data_head_len, RingQueue, push, pop, release_write, release_read,
}
use ttserver.Ring.Contents.{is_empty_iff, IsValid}
use ttserver.Ring.Queue.{
  frame, frames, Words-append, frames-append, Holds, used-eq, relock, pushed, push-unlocked,
  pop-unlocked, push_locked_full, push_locked_room, pushed-IsValid, stored-pushed,
}
use ttserver.Ring.Pop.{popped, popped-IsValid, stored-popped, pop_locked_first}

-- Push of a message whose frame does not fit the room left fails and leaves the ring as it was.
pub push_full :
    (r : RingQueue) (ms : List (List ℕ)) (m : List ℕ)
    → Holds r ms
    → r.data_buf_size < length (frames ms) + (4 + length m)
    → push r m (length m) ≡ some (false, r)
push_full r ms m h full =
    push-unlocked r m (length m) h.write_free
    ∙ (ap (λ o. some (release_write o))
          (push_locked_full (record r { on_write = true }) (relock true r.on_read h.valid) m
            (omega (arith, used-eq h)))
        ∙ (λ i. some (false, record r { on_write = sym h.write_free i })))

-- Push of a message whose frame fits the room left succeeds, and the ring then holds the messages
-- it held and the new one behind them, in a buffer of the same size.
pub push_room :
    (r : RingQueue) (ms : List (List ℕ)) (m : List ℕ)
    → Holds r ms
    → length m < 2 ^ 32
    → length (frames ms) + (4 + length m) ≤ r.data_buf_size
    → (r' : RingQueue) × (push r m (length m) ≡ some (true, r'))
      × Holds r' (ms ++ m ∷ [])
      × (r'.data_buf_size ≡ r.data_buf_size)
unfolding pushed
push_room r ms m h word room = (
  record after { on_write = false },
  push-unlocked r m (length m) h.write_free
      ∙ ap (λ o. some (release_write o)) (push_locked_room locked v m room'),
  record {
    valid = relock false r.on_read (pushed-IsValid locked v m room');
    bytes =
        stored-pushed locked v m room'
        ∙ (ap (λ l. l ++ frame m) h.bytes ∙ sym (frames-append ms m));
    words = Words-append ms m h.words word;
    write_free = refl;
    read_free = h.read_free;
  },
  refl,
)
  where
    locked : RingQueue
    locked = record r { on_write = true }

    v : IsValid locked
    v = relock true r.on_read h.valid

    room' : v.used + (4 + length m) ≤ r.data_buf_size
    room' = omega (arith, used-eq h)

    after : RingQueue
    after = pushed locked v m

-- Pop on a ring that holds messages gives the oldest one and its length, and the ring then holds
-- the others, in a buffer of the same size.
pub pop_first :
    (r : RingQueue) (ms : List (List ℕ)) (m : List ℕ)
    → Holds r (m ∷ ms)
    → (r' : RingQueue) × (pop r ≡ some (some m, length m, r'))
      × Holds r' ms
      × (r'.data_buf_size ≡ r.data_buf_size)
unfolding popped
pop_first r ms m h = (
  record after { on_read = false },
  pop-unlocked r h.read_free
      ∙ ap (λ o. some (release_read o)) (pop_locked_first locked v m (frames ms) h.bytes h.words.0),
  record {
    valid = relock r.on_write false (popped-IsValid locked v m (frames ms) h.bytes h.words.0);
    bytes = stored-popped locked v m (frames ms) h.bytes h.words.0;
    words = h.words.1;
    write_free = h.write_free;
    read_free = refl;
  },
  refl,
)
  where
    locked : RingQueue
    locked = record r { on_read = true }

    v : IsValid locked
    v = relock r.on_write true h.valid

    after : RingQueue
    after = popped locked v m (frames ms) h.bytes h.words.0

pub pop_empty : (r : RingQueue) → Holds r [] → pop r ≡ some (none, 0, r)
unfolding pop_locked
pop_empty r h =
    pop-unlocked r h.read_free
    ∙ (ap (λ (b : Bool). some (release_read (if b then (none, 0, locked) else rest))) empty
        ∙ (λ i. some (none, 0, record r { on_read = sym h.read_free i })))
  where
    locked : RingQueue
    locked = record r { on_read = true }

    rest : Option (List ℕ) × ℕ × RingQueue
    rest =
        let (head, r1) = read_data locked data_head_len in
        let len = (decode32u head).0 in
        let (bytes, r2) = read_data r1 len in (some bytes, len, record r2 { tail = r2.read_tail })

    empty : is_empty locked ≡ true
    empty = (is_empty_iff locked (relock r.on_write true h.valid)).1 (omega (arith, used-eq h))
