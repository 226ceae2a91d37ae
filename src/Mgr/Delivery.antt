-- ===== src/Mgr/Delivery.antt =====
-- Messages from the main thread, as the network thread reads them.
use ttserver.Base.{
  ℕ, suc, ◌+◌, ◌*◌, ◌-◌, ◌%◌, ◌^◌, ◌≤◌, ◌<◌, ◌≡◌, ◌≢◌, refl, sym, ap, ◌∙◌, arith, true, false, List,
  [], ◌∷◌, ◌++◌, some, length, take, length-append, length-take,
}
use ttserver.Bytes.{encode8u, encode32u, decode32u, le_bytes, le_word}
use ttserver.Config.{msg_proto}
use ttserver.Library.{Library}
use ttserver.Ring.Defs.{RingQueue, push, pop, is_empty}
use ttserver.Ring.Queue.{Holds, frame, used-eq, length-frame}
use ttserver.Ring.Contents.{is_empty_iff}
use ttserver.Ring.Steps.{push_room, pop_first}
use ttserver.Host.{succ}
use ttserver.Conn.Data.{MsgOpt}
use ttserver.Net.{World}
use ttserver.Mgr.{
  SendMsgHead, send_head_size, send_head_bytes, conn_list_bytes, merged, m2n_message, broadcast_msg,
  pushed_m2n,
}
use ttserver.Mgr.Work.{parse_send_head, is_accepted, handle_m2n, proc_m2n_msg}

length-conn_list_bytes : (ids : List ℕ) → length (conn_list_bytes ids) ≡ 4 * length ids
unfolding conn_list_bytes encode32u le_bytes
length-conn_list_bytes [] = omega arith
length-conn_list_bytes (i ∷ ids) = omega (arith, length-conn_list_bytes ids)

-- The numbers that the reader of a head finds.
parse_send_head-eq :
    (h : SendMsgHead) (rest : List ℕ)
    → h.conn_cnt < 2 ^ 32
    → h.data_len < 2 ^ 32
    → ((parse_send_head (send_head_bytes h ++ rest)).conn_cnt ≡ h.conn_cnt)
      × ((parse_send_head (send_head_bytes h ++ rest)).data_len ≡ h.data_len)
unfolding parse_send_head send_head_bytes encode8u encode32u decode32u le_bytes le_word
parse_send_head-eq h rest a b = (omega arith, omega arith)

-- A length that leaves out a list is not the one that the reader expects.
rest_len-wrong :
    (len n : ℕ)
    → 1 ≤ n
    → n < 2 ^ 31
    → len ≤ 2 ^ 20
    → (len + send_head_size - send_head_size + 2 ^ 64 - 4 * n) % 2 ^ 64 ≢ len
rest_len-wrong len n a b c e = absurd (omega arith)

proto_head : MsgOpt → List ℕ → ℕ → SendMsgHead
proto_head opt ids len = record {
  msg_type = msg_proto;
  conn_cnt = length ids;
  data_len = len;
  opt = opt;
}

-- The head is whole.
m2n_message-eq :
    (opt : MsgOpt) (ids bytes : List ℕ) (len : ℕ)
    → m2n_message opt ids bytes len
      ≡ send_head_bytes (proto_head opt ids len) ++ take len (conn_list_bytes ids ++ take len bytes)
unfolding m2n_message proto_head send_head_bytes encode8u encode32u le_bytes
m2n_message-eq opt ids bytes len =
    let e : len + send_head_size ≡ suc (suc (suc (suc (suc (suc (suc (suc (suc (suc len))))))))) =
      omega arith in
    ap (λ k. take k (merged (proto_head opt ids len) ids (take len bytes))) e

length-m2n_message :
    (opt : MsgOpt) (ids bytes : List ℕ) (len : ℕ)
    → len ≤ length bytes
    → length (m2n_message opt ids bytes len) ≡ len + send_head_size
unfolding send_head_bytes encode8u encode32u le_bytes
length-m2n_message opt ids bytes len h =
    ap length (m2n_message-eq opt ids bytes len)
    ∙ omega (
      arith,
      length-take len (conn_list_bytes ids ++ take len bytes),
      length-append (conn_list_bytes ids) (take len bytes),
      length-take len bytes,
    )

-- The network thread takes no message of BroadcastMsg.
m2n_message-refused :
    (opt : MsgOpt) (ids bytes : List ℕ) (len : ℕ)
    → 1 ≤ length ids
    → length ids < 2 ^ 31
    → len ≤ 2 ^ 20
    → is_accepted (parse_send_head (m2n_message opt ids bytes len)) (len + send_head_size) ≡ false
unfolding is_accepted proto_head
m2n_message-refused opt ids bytes len a b c =
    let rest = take len (conn_list_bytes ids ++ take len bytes) in
    let (cnt, size) =
      parse_send_head-eq (proto_head opt ids len) rest (omega arith) (omega arith) in
    let wrong = rest_len-wrong len (length ids) a b c in
    rw (m2n_message-eq opt ids bytes len) (rw (cnt, size) (ground (arith, wrong)))

module _ {K : Type 0} (lib : Library K) where
  handle_m2n-refused :
      (w : World K) (msg : List ℕ) (len num : ℕ)
      → is_accepted (parse_send_head msg) len ≡ false
      → handle_m2n lib msg len num w ≡ some (num, w)
  unfolding handle_m2n
  handle_m2n-refused w msg len num e = rw e refl

  -- A ring that is empty ends the loop.
  proc_m2n_msg-empty :
      (w : World K) (q : RingQueue) (num fuel : ℕ)
      → Holds q []
      → proc_m2n_msg lib (suc fuel) num q w ≡ some (num, q, w)
  unfolding proc_m2n_msg
  proc_m2n_msg-empty w q num fuel h =
      let e = (is_empty_iff q h.valid).1 (omega (arith, used-eq h)) in ground (arith, e)

  -- One round of the loop.
  proc_m2n_msg-round :
      (w : World K) (q q1 : RingQueue) (msg : List ℕ) (len fuel : ℕ)
      → is_empty q ≡ false
      → pop q ≡ some (some msg, len, q1)
      → handle_m2n lib msg len 0 w ≡ some (0, w)
      → proc_m2n_msg lib (suc fuel) 0 q w ≡ proc_m2n_msg lib fuel 0 q1 w
  unfolding proc_m2n_msg
  proc_m2n_msg-round w q q1 msg len fuel e p h = rw (e, p, h) refl

  proc_m2n_msg-refused :
      (w : World K) (q : RingQueue) (msg : List ℕ) (fuel : ℕ)
      → Holds q (msg ∷ [])
      → is_accepted (parse_send_head msg) (length msg) ≡ false
      → (q1 : RingQueue) × (proc_m2n_msg lib (suc (suc fuel)) 0 q w ≡ some (0, q1, w)) × Holds q1 []
  proc_m2n_msg-refused w q msg fuel h e =
      let (q1, popped, h1, size) = pop_first q [] msg h in
      let used : is_empty q ≢ true = λ z. absurd (
        omega (
          arith,
          (is_empty_iff q h.valid).0 z,
          used-eq h,
          length-append (frame msg) [],
          length-frame msg,
        )) in
      (
        q1,
        proc_m2n_msg-round w q q1 msg (length msg) (suc fuel) (ground (arith, used)) popped
              (handle_m2n-refused w msg (length msg) 0 e)
            ∙ proc_m2n_msg-empty w q1 0 fuel h1,
        h1,
      )

  -- BroadcastMsg to at least one connection, of data that fits MAX_BIZ_MSG_SIZE together with
  -- four bytes for each connection, onto an empty ring with room for it, succeeds; ProcM2NMsg
  -- then takes the message off the ring, calls no connection and leaves the network thread's
  -- world as it was.
  pub proc_m2n_msg-broadcast_msg :
      (w : World K) (q : RingQueue) (bytes : List ℕ) (len : ℕ) (opt : MsgOpt) (ids : List ℕ)
      (fuel : ℕ)
      → Holds q []
      → len ≤ length bytes
      → 1 ≤ length ids
      → 4 * length ids + len ≤ 2 ^ 20
      → 4 + (len + send_head_size) ≤ q.data_buf_size
      → (q1 : RingQueue) × (q2 : RingQueue) × (broadcast_msg q bytes len opt ids ≡ some (succ, q1))
        × (proc_m2n_msg lib (suc (suc fuel)) 0 q1 w ≡ some (0, q2, w))
        × Holds q2 []
  unfolding broadcast_msg
  proc_m2n_msg-broadcast_msg w q bytes len opt ids fuel h a c b room =
      let msg = m2n_message opt ids bytes len in
      let whole = length-m2n_message opt ids bytes len a in
      let (q1, pushed, h1, size) =
        push_room q [] msg h (omega (arith, whole)) (omega (arith, whole)) in
      let refused : is_accepted (parse_send_head msg) (length msg) ≡ false =
        ap (is_accepted (parse_send_head msg)) whole
        ∙ m2n_message-refused opt ids bytes len c (omega arith) (omega arith) in
      let (q2, done, h2) = proc_m2n_msg-refused w q1 msg fuel h1 refused in
      let taken : push q msg (len + send_head_size) ≡ some (true, q1) =
        ap (push q msg) (sym whole) ∙ pushed in
      (q1, q2, ground (arith, ap pushed_m2n taken, b), done, h2)
