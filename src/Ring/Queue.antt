-- ===== src/Ring/Queue.antt =====
-- The ring as a queue of messages.
use ttserver.Base.{
  ℕ, ◌+◌, ◌-◌, ◌^◌, ◌≤◌, ◌<◌, ◌≡◌, refl, sym, ap, ◌∙◌, Bool, true, false, List, [], ◌∷◌, ◌++◌,
  append-nil, append_assoc, none, some, arith, length, ltb-false, lt→ltb, if◌then◌else◌,
  length-append,
}
use ttserver.Bytes.{encode32u}
use ttserver.Msg.Parse.{length-encode32u}
use ttserver.Ring.Defs.{
  RingQueue, write_data, data_head_len, push_locked, release_write, release_read, push, pop_locked,
  pop,
}
use ttserver.Ring.Windows.{length-window}
use ttserver.Ring.Contents.{IsValid, stored, window-write_data, remaining_space-eq}

-- A message in the ring: its length, then its bytes.
abbrev pub frame : List ℕ → List ℕ
frame m = encode32u (length m) ++ m

abbrev pub frames : List (List ℕ) → List ℕ
frames [] = []
frames (m ∷ ms) = frame m ++ frames ms

pub frames-append : (ms : List (List ℕ)) (m : List ℕ) → frames (ms ++ m ∷ []) ≡ frames ms ++ frame m
frames-append [] m = append-nil (frame m)
frames-append (x ∷ ms) m =
    ap (λ l. frame x ++ l) (frames-append ms m) ∙ sym (append_assoc (frame x) (frames ms) (frame m))

pub length-frame : (m : List ℕ) → length (frame m) ≡ 4 + length m
length-frame m = omega (arith, length-append (encode32u (length m)) m, length-encode32u (length m))

abbrev pub Words : List (List ℕ) → Type 0
Words [] = Unit
Words (m ∷ ms) = (length m < 2 ^ 32) × Words ms

pub Words-append :
    (ms : List (List ℕ)) (m : List ℕ) → Words ms → length m < 2 ^ 32 → Words (ms ++ m ∷ [])
Words-append [] m w h = (h, tt)
Words-append (x ∷ ms) m w h = (w.0, Words-append ms m w.1 h)

-- The ring holds these messages, oldest first, and nobody is inside `Push` or `Pop`.
pub record Holds (r : RingQueue) (ms : List (List ℕ)) : Type 0 where
  pub valid : IsValid r
  pub bytes : stored r valid ≡ frames ms
  pub words : Words ms
  pub write_free : r.on_write ≡ false
  pub read_free : r.on_read ≡ false

pub used-eq :
    {r : RingQueue} {ms : List (List ℕ)} (h : Holds r ms) → h.valid.used ≡ length (frames ms)
used-eq {r} {ms} h =
    sym (length-window r.data_buf r.data_buf_size h.valid.read h.valid.used) ∙ ap length h.bytes

-- The locks are no part of the contents.
abbrev pub relock :
    {r : RingQueue} (w d : Bool) → IsValid r → IsValid (record r { on_write = w; on_read = d })
relock w d v = record {
  log_size = v.log_size;
  power = v.power;
  small = v.small;
  read = v.read;
  used = v.used;
  fits = v.fits;
  tail_eq = v.tail_eq;
  head_eq = v.head_eq;
  write_done = v.write_done;
  read_done = v.read_done;
}

pub push-unlocked :
    (r : RingQueue) (m : List ℕ) (len : ℕ)
    → r.on_write ≡ false
    → push r m len ≡ some (release_write (push_locked (record r { on_write = true }) m len))
unfolding push
push-unlocked r m len e =
    ap
      (λ (b : Bool).
        if b then none else some (release_write (push_locked (record r { on_write = true }) m len)))
      e

pub pop-unlocked :
    (r : RingQueue)
    → r.on_read ≡ false
    → pop r ≡ some (release_read (pop_locked (record r { on_read = true })))
unfolding pop
pop-unlocked r e =
    ap
      (λ (b : Bool).
        if b then none else some (release_read (pop_locked (record r { on_read = true }))))
      e

module _ (r : RingQueue) (v : IsValid r) (m : List ℕ) where
  pub push_locked_full :
      r.data_buf_size < v.used + (4 + length m) → push_locked r m (length m) ≡ (false, r)
  unfolding push_locked
  push_locked_full full = rw (
    remaining_space-eq r v,
    lt→ltb (r.data_buf_size - v.used) (length m + 4) (omega (arith, v.fits)),
  )

  -- The ring after a push that has room.
  unfoldable pub pushed : RingQueue
  unfolding write_data
  pushed =
      let r2 = write_data (write_data r (encode32u (length m)) data_head_len) m (length m) in
      record r2 { head = r2.write_head }

  pub push_locked_room :
      v.used + (4 + length m) ≤ r.data_buf_size → push_locked r m (length m) ≡ (true, pushed)
  unfolding push_locked pushed
  push_locked_room room = rw (
    remaining_space-eq r v,
    ltb-false (r.data_buf_size - v.used) (length m + 4) (omega (arith, v.fits)),
  )

  pub pushed-IsValid : v.used + (4 + length m) ≤ r.data_buf_size → IsValid pushed
  unfolding pushed
  pushed-IsValid room = record {
    log_size = v.log_size;
    power = v.power;
    small = v.small;
    read = v.read;
    used = v.used + 4 + length m;
    fits = omega arith;
    tail_eq = v.tail_eq;
    head_eq = omega (arith, v.write_done, v.head_eq);
    write_done = refl;
    read_done = v.read_done;
  }

  pub stored-pushed :
      (room : v.used + (4 + length m) ≤ r.data_buf_size)
      → stored pushed (pushed-IsValid room) ≡ stored r v ++ frame m
  unfolding pushed pushed-IsValid
  stored-pushed room =
      window-write_data r1 v.log_size v.power v.small m (length m) v.read (v.used + 4) refl
        (omega (arith, v.write_done, v.head_eq)) (omega arith)
      ∙ (ap (λ l. l ++ m)
            (window-write_data r v.log_size v.power v.small (encode32u (length m)) 4 v.read v.used
              (length-encode32u (length m)) (v.write_done ∙ v.head_eq) (omega arith))
          ∙ append_assoc (stored r v) (encode32u (length m)) m)
    where
      r1 : RingQueue
      r1 = write_data r (encode32u (length m)) data_head_len
