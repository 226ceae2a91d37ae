-- ===== src/Ring/Pop.antt =====
-- `Pop` on a ring that holds messages.

use ttserver.Base.{
  ℕ, ◌+◌, ◌%◌, ◌^◌, ◌<◌, ◌≡◌, refl, sym, ap, ◌∙◌, false, List, [], ◌++◌, append-nil, append_assoc,
  some, arith, length, take, drop, length-append, take-append, drop-append, Bool-cases, inl, inr,
}
use ttserver.Bytes.{encode32u, decode32u}
use ttserver.Bytes.Laws.{decode32u-encode32u}
use ttserver.Msg.Parse.{length-encode32u}
use ttserver.Ring.Defs.{RingQueue, add32, is_empty, read_data, data_head_len, pop_locked}
use ttserver.Ring.Windows.{window, length-window, window-add}
use ttserver.Ring.Contents.{IsValid, stored, read_data-window, is_empty_iff}
use ttserver.Ring.Queue.{frame, length-frame}

-- Two ways to cut a list at the same place are one.
append-injective {ℓ} :
    {A : Type ℓ} (xs ys zs ws : List A) (n : ℕ)
    → length xs ≡ n
    → length zs ≡ n
    → xs ++ ys ≡ zs ++ ws
    → (xs ≡ zs) × (ys ≡ ws)
append-injective xs ys zs ws n hx hz e = (
  sym (take-append xs ys n hx) ∙ (ap (take n) e ∙ take-append zs ws n hz),
  sym (drop-append xs ys n hx) ∙ (ap (drop n) e ∙ drop-append zs ws n hz),
)

module _ (r : RingQueue) (v : IsValid r) (m : List ℕ) (rest : List ℕ)
    (holds : stored r v ≡ frame m ++ rest) (word : length m < 2 ^ 32) where
  total : v.used ≡ 4 + length m + length rest
  total = omega (
    arith,
    length-window r.data_buf r.data_buf_size v.read v.used,
    ap length holds,
    length-append (frame m) rest,
    length-frame m,
  )

  cut_head :
      (window r.data_buf r.data_buf_size v.read 4 ≡ encode32u (length m))
      × (window r.data_buf r.data_buf_size (v.read + 4) (length m + length rest) ≡ m ++ rest)
  cut_head =
      append-injective (window r.data_buf r.data_buf_size v.read 4)
        (window r.data_buf r.data_buf_size (v.read + 4) (length m + length rest))
        (encode32u (length m)) (m ++ rest) 4 (length-window r.data_buf r.data_buf_size v.read 4)
        (length-encode32u (length m))
        (sym (
            window-add r.data_buf r.data_buf_size v.read 4 (length m + length rest) (v.read + 4)
              refl)
          ∙ (ap (window r.data_buf r.data_buf_size v.read) (omega (arith, total))
              ∙ (holds ∙ append_assoc (encode32u (length m)) m rest)))

  cut_message :
      (window r.data_buf r.data_buf_size (v.read + 4) (length m) ≡ m)
      × (window r.data_buf r.data_buf_size (v.read + 4 + length m) (length rest) ≡ rest)
  cut_message =
      append-injective (window r.data_buf r.data_buf_size (v.read + 4) (length m))
        (window r.data_buf r.data_buf_size (v.read + 4 + length m) (length rest)) m rest (length m)
        (length-window r.data_buf r.data_buf_size (v.read + 4) (length m)) refl
        (sym (
            window-add r.data_buf r.data_buf_size (v.read + 4) (length m) (length rest)
              (v.read + 4 + length m) refl)
          ∙ cut_head.1)

  -- The ring after the message was read.
  unfoldable pub popped : RingQueue
  popped =
      let after = add32 (add32 r.read_tail data_head_len) (length m) in
      record r { read_tail = after; tail = after }

  pub popped-IsValid : IsValid popped
  unfolding popped
  popped-IsValid = record {
    log_size = v.log_size;
    power = v.power;
    small = v.small;
    read = v.read + 4 + length m;
    used = length rest;
    fits = omega (arith, v.fits, total);
    tail_eq = omega (arith, v.read_done, v.tail_eq);
    head_eq = v.head_eq ∙ ap (λ (t : ℕ). t % 2 ^ 32) (omega (arith, total));
    write_done = v.write_done;
    read_done = refl;
  }

  pub stored-popped : stored popped popped-IsValid ≡ rest
  unfolding popped popped-IsValid
  stored-popped = cut_message.1

  not_empty : is_empty r ≡ false
  not_empty = elim (Bool-cases (is_empty r)) [
    | inl e ↦ absurd (omega (arith, total, (is_empty_iff r v).0 e))
    | inr e ↦ e
  ]

  head_read : (decode32u (read_data r data_head_len).0).0 ≡ length m
  head_read =
      ap (λ l. (decode32u l).0)
        (read_data-window r v.log_size v.power v.small v.read 4 (v.read_done ∙ v.tail_eq)
            (omega (arith, v.fits, total))
          ∙ (cut_head.0 ∙ sym (append-nil (encode32u (length m)))))
      ∙ ap (λ p. p.0) (decode32u-encode32u (length m) [] word)

  message_read : (read_data (read_data r data_head_len).1 (length m)).0 ≡ m
  unfolding read_data
  message_read =
      read_data-window (read_data r data_head_len).1 v.log_size v.power v.small (v.read + 4)
        (length m) (omega (arith, v.read_done, v.tail_eq)) (omega (arith, v.fits, total))
      ∙ cut_message.0

  after_reads :
      (read_data (read_data r data_head_len).1 (length m)).1
      ≡ record r { read_tail = add32 (add32 r.read_tail data_head_len) (length m) }
  unfolding read_data
  after_reads = refl

  pub pop_locked_first : pop_locked r ≡ (some m, length m, popped)
  unfolding pop_locked popped
  pop_locked_first = rw (not_empty, head_read, message_read, after_reads)
