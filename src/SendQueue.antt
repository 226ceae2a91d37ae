-- ===== src/SendQueue.antt =====
-- src/net/SendQueue.h and SendQueue.cpp: the doubly linked queue of packets that wait for the socket.
-- A node is its address; the links of all nodes, the sentinel `head` included, are two functions on
-- addresses. `SendQueue.Chain` describes the links of a list, `SendQueue.Refine` compares runs.
pub mod Chain
pub mod Links
pub mod Refine
use ttserver.Base.{ℕ, ◌+◌, ◌-◌, ◌%◌, ◌^◌, Bool, ◌==◌, if◌then◌else◌}

-- The address of a node.
abbrev pub Ptr : Type 0
Ptr = ℕ

-- One link written.
abbrev pub put : (Ptr → Ptr) → Ptr → Ptr → Ptr → Ptr
put f p v q = if q == p then v else f q

-- `head` is the address of `m_stHead`, `pre` and `next` the links of every node.
pub record SendQueue : Type 0 where
  pub head : Ptr
  pub size : ℕ
  pub pre : Ptr → Ptr
  pub next : Ptr → Ptr

-- The constructor, over nodes whose links hold anything.
unfoldable pub new_queue : Ptr → (Ptr → Ptr) → (Ptr → Ptr) → SendQueue
new_queue head pre next = record {
  head = head;
  size = 0;
  pre = put pre head head;
  next = put next head head;
}

-- `IsEmpty`.
abbrev pub is_empty : SendQueue → Bool
is_empty q = q.size == 0

-- `Front`.
abbrev pub front : SendQueue → Ptr
front q = q.next q.head

-- `Back`.
abbrev pub back : SendQueue → Ptr
back q = q.pre q.head

-- `AddTail(&m_stHead, pNode)`, the four writes in order.
unfoldable pub add_tail : SendQueue → Ptr → SendQueue
add_tail q node =
    let pre1 : Ptr → Ptr = put q.pre node (q.pre q.head) in
    let next1 : Ptr → Ptr = put q.next node q.head in
    let next2 : Ptr → Ptr = put next1 (pre1 q.head) node in
    record q { pre = put pre1 q.head node; next = next2 }

-- `Del`, the two writes in order.
unfoldable pub del : SendQueue → Ptr → SendQueue
del q node =
    let next1 : Ptr → Ptr = put q.next (q.pre node) (q.next node) in
    record q { next = next1; pre = put q.pre (next1 node) (q.pre node) }

-- `Push`; the size is a `size_t`.
unfoldable pub push : SendQueue → Ptr → SendQueue
push q node = let q1 = add_tail q node in record q1 { size = (q1.size + 1) % 2 ^ 64 }

-- `DelNode`.
unfoldable pub del_node : SendQueue → Ptr → SendQueue
del_node q node = let q1 = del q node in record q1 { size = (q1.size + (2 ^ 64 - 1)) % 2 ^ 64 }

-- `Pop`.
unfoldable pub pop : SendQueue → SendQueue
pop q = if is_empty q then q else del_node q (front q)
