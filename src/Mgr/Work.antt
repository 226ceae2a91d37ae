-- ===== src/Mgr/Work.antt =====
-- `ProcM2NMsg` of src/net/NetMgr.cpp.
use ttserver.Base.{
  ℕ, zero, suc, ◌+◌, ◌-◌, ◌*◌, ◌%◌, ◌^◌, Bool, false, not, ◌&&◌, ◌||◌, List, [], ◌∷◌, Option, none,
  some, ltb, ◌==◌, if◌then◌else◌, drop,
}
use ttserver.Bytes.{decode8u, decode32u, decode64u}
use ttserver.Config.{msg_proto, msg_bind, msg_close}
use ttserver.Library.{Library}
use ttserver.Ring.Defs.{RingQueue, is_empty, pop}
use ttserver.Host.{Ptr, Host, Ret}
use ttserver.Host.Events.{BindConnMsg}
use ttserver.Conn.{NetConnect, Result}
use ttserver.Conn.Data
use ttserver.Conn.Life.{bind_connect, fin_connect}
use ttserver.Net.{World, with_conn, get_conn_by_id}
use ttserver.Mgr.{SendMsgHead, send_head_size, opt_of_byte}

unfoldable pub parse_send_head : List ℕ → SendMsgHead
parse_send_head bytes = record {
  msg_type = (decode8u bytes).0;
  conn_cnt = (decode32u (drop 1 bytes)).0;
  data_len = (decode32u (drop 5 bytes)).0;
  opt = opt_of_byte (decode8u (drop 9 bytes)).0;
}

-- `0 >= n` for the bit pattern of an `int`.
abbrev pub is_not_positive : ℕ → Bool
is_not_positive n = n == 0 || not (ltb n (2 ^ 31))

-- `ulDataLen`, a `size_t`.
abbrev pub rest_len : SendMsgHead → ℕ → ℕ
rest_len h msg_len = (msg_len - send_head_size + 2 ^ 64 - 4 * h.conn_cnt) % 2 ^ 64

-- `sizeof(STBindConnMsg)` and `sizeof(STCloseConnMsg)`
abbrev pub bind_size : ℕ
bind_size = 8 + 8

abbrev pub close_size : ℕ
close_size = 1 + 4

abbrev pub is_known_type : SendMsgHead → Bool
is_known_type h =
    h.msg_type == msg_proto
    || (h.msg_type == msg_bind && h.data_len == bind_size)
    || (h.msg_type == msg_close && h.data_len == close_size)

-- The checks of a message of that length, in the code's order.
unfoldable pub is_accepted : SendMsgHead → ℕ → Bool
is_accepted h msg_len =
    if ltb msg_len send_head_size
    then false
    else if is_not_positive h.data_len || is_not_positive h.conn_cnt
    then false
    else if not (rest_len h msg_len == h.data_len)
    then false
    else is_known_type h

abbrev pub parse_bind : List ℕ → BindConnMsg
parse_bind bytes = record {
  bind_seq = (decode64u bytes).0;
  bind_data = (decode64u (drop 8 bytes)).0;
}

-- The list of connections.
unfoldable pub parse_conn_list : ℕ → List ℕ → List ℕ
parse_conn_list zero bytes = []
parse_conn_list (suc n) bytes = (decode32u bytes).0 ∷ parse_conn_list n (drop 4 bytes)

module _ {K : Type 0} (lib : Library K) where
  -- The call for one connection, by the type of the message.
  unfoldable pub call_conn : SendMsgHead → List ℕ → NetConnect K → Host → Result K
  call_conn head bytes c h =
      if head.msg_type == msg_proto
      then Data.send_msg lib c h bytes head.data_len head.opt
      else if head.msg_type == msg_bind
      then bind_connect c h (parse_bind bytes)
      else fin_connect lib c h (decode8u bytes).0

  abbrev called : ℕ → Option (Ret × World K) → Option (ℕ × World K)
  called num none = none
  called num (some (r, w)) = some (num + 1, w)

  abbrev call_found :
      SendMsgHead → List ℕ → ℕ → World K → Option (Option Ptr) → Option (ℕ × World K)
  call_found head bytes num w none = none
  call_found head bytes num w (some none) = some (num, w)
  call_found head bytes num w (some (some p)) = called num (with_conn w p (call_conn head bytes))

  -- The loop over the list of connections; an id that is not found is passed over.
  unfoldable pub call_all : SendMsgHead → List ℕ → List ℕ → ℕ → World K → Option (ℕ × World K)
  call_all head bytes [] num w = some (num, w)
  call_all head bytes (i ∷ ids) num w = elim (call_found head bytes num w (get_conn_by_id w i)) [
    | none ↦ none
    | some after ↦ call_all head bytes ids after.0 after.1
  ]

  -- One message that was taken from the ring, with its length.
  unfoldable pub handle_m2n : List ℕ → ℕ → ℕ → World K → Option (ℕ × World K)
  handle_m2n msg len num w =
      let head = parse_send_head msg in
      let body = drop send_head_size msg in
      let all =
        call_all head (drop (4 * head.conn_cnt) body) (parse_conn_list head.conn_cnt body) num w in
      if is_accepted head len then all else some (num, w)

  -- What `Pop` left in the buffer; a ring that was not empty gives a message.
  abbrev pub popped_msg : Option (List ℕ) → List ℕ
  popped_msg none = []
  popped_msg (some msg) = msg

  -- The loop, with the number of calls so far. `none`: a freed connection is read, the lock of the
  -- ring is held, or the fuel is used up.
  unfoldable pub proc_m2n_msg : ℕ → ℕ → RingQueue → World K → Option (ℕ × RingQueue × World K)
  proc_m2n_msg zero num q w = none
  proc_m2n_msg (suc fuel) num q w =
      if not (ltb num 1000)
      then some (num, q, w)
      else if is_empty q
      then some (num, q, w)
      else elim (pop q) [
        | none ↦ none
        | some taken ↦ elim (handle_m2n (popped_msg taken.0) taken.1 num w) [
          | none ↦ none
          | some after ↦ proc_m2n_msg fuel after.0 taken.2 after.1
        ]
      ]
