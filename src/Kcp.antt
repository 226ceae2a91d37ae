-- ===== src/Kcp.antt =====
-- `KcpWrapper` of src/net/KcpWrapper.h and src/net/KcpWrappar.cpp. The connection that it refers
-- to enters by its id.
use ttserver.Base.{
  ℕ, ◌%◌, ◌^◌, Bool, true, false, List, ltb, leb, ◌==◌, if◌then◌else◌, ℤ, pos, negsuc,
}
use ttserver.Config.{kcp_conf_max_waitsnd}
use ttserver.Library.{Library}

pub record Kcp (K : Type 0) : Type 0 where
  pub ikcp : K
  pub need_recv : Bool

abbrev is_int : ℤ → ℤ → Bool
is_int (pos a) (pos b) = a == b
is_int (negsuc a) (negsuc b) = a == b
is_int (pos a) (negsuc b) = false
is_int (negsuc a) (pos b) = false

module _ {K : Type 0} (lib : Library K) where
  open lib use {
    ikcp_zero, ikcp_conv, ikcp_state, ikcp_create, ikcp_configure, ikcp_send, ikcp_input,
    ikcp_peeksize, ikcp_recv, ikcp_recv_null, ikcp_update, ikcp_waitsnd, ikcp_restart,
  }

  unfoldable pub mem_init : Kcp K → Kcp K
  mem_init k = record { ikcp = ikcp_zero; need_recv = false }

  -- `Init`: `true` is the result 0.
  unfoldable pub init : ℕ → Kcp K → Bool × Kcp K
  init conn_id k =
      if conn_id == 0
      then (false, k)
      else if ltb 0 (ikcp_conv k.ikcp)
      then (false, k)
      else let (created, i) = ikcp_create conn_id k.ikcp in
        if created
        then (true, record { ikcp = ikcp_configure i; need_recv = false })
        else (false, record { ikcp = i; need_recv = false })

  -- `ikcp_release`, then zeros over all of its memory.
  unfoldable pub reclaim : Kcp K → Kcp K
  reclaim k = if ltb 0 (ikcp_conv k.ikcp) then record k { ikcp = ikcp_zero } else k

  unfoldable pub reset : ℕ → Kcp K → Bool × Kcp K
  reset conn_id k = init conn_id (reclaim k)

  -- The time goes to 32 bits.
  unfoldable pub update : Kcp K → ℕ → Kcp K × List (List ℕ)
  update k now = let (i, out) = ikcp_update k.ikcp (now % 2 ^ 32) in (record k { ikcp = i }, out)

  unfoldable pub get_wait_snd : Kcp K → ℕ
  get_wait_snd k = if ltb 0 (ikcp_conv k.ikcp) then ikcp_waitsnd k.ikcp else 0

  -- Past the limit of waiting packets a message is dropped.
  unfoldable pub send : Kcp K → List ℕ → ℤ × Kcp K
  send k bytes =
      if leb kcp_conf_max_waitsnd (get_wait_snd k)
      then (negsuc 1000, k)
      else let (result, i) = ikcp_send k.ikcp bytes in (result, record k { ikcp = i })

  unfoldable pub input : Kcp K → List ℕ → ℤ × Kcp K
  input k bytes =
      let (result, i) = ikcp_input k.ikcp bytes in (result, record { ikcp = i; need_recv = true })

  unfoldable pub peek_size : Kcp K → ℤ
  peek_size k = ikcp_peeksize k.ikcp

  unfoldable pub recv : Kcp K → ℕ → ℤ × List ℕ × Kcp K
  recv k len =
      let (result, bytes, i) = ikcp_recv k.ikcp len in (result, bytes, record k { ikcp = i })

  unfoldable pub recv_null : Kcp K → ℤ → ℤ × Kcp K
  recv_null k len = let (result, i) = ikcp_recv_null k.ikcp len in (result, record k { ikcp = i })

  unfoldable pub reset_need_recv : Kcp K → Kcp K
  reset_need_recv k = record k { need_recv = false }

  -- `Reconnect`: a reclaimed instance is initialised again first.
  unfoldable pub reconnect : ℕ → Kcp K → Bool × Kcp K
  reconnect conn_id k =
      let (ready, k') = if ikcp_conv k.ikcp == 0 then init conn_id k else (true, k) in
      if ready then (true, record k' { ikcp = ikcp_restart k'.ikcp }) else (false, k')

  unfoldable pub is_dead_link : Kcp K → Bool
  is_dead_link k = is_int (ikcp_state k.ikcp) (negsuc 0)

  unfoldable pub is_sn_broken : Kcp K → Bool
  is_sn_broken k = is_int (ikcp_state k.ikcp) (negsuc 1)
