-- ===== src/Ring/Refine.antt =====
-- The ring against a queue of messages whose frames take at most a fixed number of bytes.
use mathlib.Core.Option
use ttserver.Base.{
  ℕ, ◌+◌, ◌^◌, ◌<◌, ◌≡◌, refl, ◌∙◌, List, [], ◌∷◌, ◌++◌, Option, none, some, arith, length, ltb,
  if◌then◌else◌, Bool-cases, inl, inr,
}
use ttserver.Ring.Defs.{RingQueue, push, pop}
use ttserver.Ring.Queue.{frames, Holds}
use ttserver.Ring.Steps.{push_full, push_room, pop_first, pop_empty}

-- What a client asks of the ring, and what it sees of each call.
pub data Op : Type 0 where
  put : List ℕ → Op
  get : Op

pub data Reply : Type 0 where
  accepted refused nothing : Reply
  message : List ℕ → Reply

-- The queue that the ring promises: a message takes its length and four bytes, of `limit` in all.
unfoldable pub spec_run : ℕ → List (List ℕ) → List Op → List Reply
spec_run limit ms [] = []
spec_run limit ms (put m ∷ ops) =
    let yes_run = accepted ∷ spec_run limit (ms ++ m ∷ []) ops in
    let no_run = refused ∷ spec_run limit ms ops in
    if ltb limit (length (frames ms) + (4 + length m)) then no_run else yes_run
spec_run limit [] (get ∷ ops) = nothing ∷ spec_run limit [] ops
spec_run limit (m ∷ ms) (get ∷ ops) = message m ∷ spec_run limit ms ops

abbrev reply : Option (List ℕ) → Reply
reply none = nothing
reply (some m) = message m

-- The same calls on the ring; a call that found its lock taken would stop the run.
unfoldable pub ring_run : RingQueue → List Op → Option (List Reply)
ring_run r [] = some []
ring_run r (put m ∷ ops) = elim (push r m (length m)) [
  | none ↦ none
  | some (done, r') ↦ Option.map (λ rs. (if done then accepted else refused) ∷ rs) (ring_run r' ops)
]
ring_run r (get ∷ ops) = elim (pop r) [
  | none ↦ none
  | some (out, len, r') ↦ Option.map (λ rs. reply out ∷ rs) (ring_run r' ops)
]

-- A length is a `uint32_t`.
abbrev pub OpWords : List Op → Type 0
OpWords [] = Unit
OpWords (put m ∷ ops) = (length m < 2 ^ 32) × OpWords ops
OpWords (get ∷ ops) = OpWords ops

-- For every sequence of pushes and pops, on a ring that holds the messages ms, of whatever size
-- the buffer has, with messages whose length fits 32 bits: the ring finds no lock taken and
-- answers every call as a queue of messages does that admits a message while the frames, four
-- bytes and the message each, fit the buffer.
pub run_refines :
    (ops : List Op) (r : RingQueue) (ms : List (List ℕ)) (limit : ℕ)
    → Holds r ms
    → OpWords ops
    → r.data_buf_size ≡ limit
    → ring_run r ops ≡ some (spec_run limit ms ops)
unfolding ring_run spec_run
run_refines [] r ms limit h w e = refl
run_refines (put m ∷ ops) r ms limit h w e =
    elim (Bool-cases (ltb limit (length (frames ms) + (4 + length m)))) [
      | inl full ↦
          let same = push_full r ms m h (ground arith) in
          rw (same, ring_run, full, run_refines ops r ms limit h w.1 e)
      | inr room ↦
          let (r', done, h', size) = push_room r ms m h w.0 (ground arith) in
          rw (done, ring_run, room, run_refines ops r' (ms ++ m ∷ []) limit h' w.1 (size ∙ e))
    ]
run_refines (get ∷ ops) r [] limit h w e =
    rw (pop_empty r h, ring_run, run_refines ops r [] limit h w e)
run_refines (get ∷ ops) r (m ∷ ms) limit h w e =
    let (r', done, h', size) = pop_first r ms m h in
    rw (done, ring_run, run_refines ops r' ms limit h' w (size ∙ e))
