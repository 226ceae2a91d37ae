-- ===== src/Tests/Demo.antt =====
-- A concrete library, host and connection.
use ttserver.Base.{ℕ, true, false, [], ◌∷◌, none, some, pos, negsuc, replicate, head_or, refl}
use ttserver.Library.{Library, SockAddr}
use ttserver.Host.{Host}
use ttserver.Ring.Defs.{new_ring}
use ttserver.Conn.{NetConnect, ConnState}
use ttserver.Conn.Setup.{zero_stat, zero_encypt_data}
use ttserver.Security.Padding.{IsCbc}

-- A transport that is always empty, and the identity as a cipher.
abbrev pub demo_library : Library ℕ
demo_library = record {
  ikcp_zero = 0;
  ikcp_conv = λ k. k;
  ikcp_state = λ k. pos 0;
  ikcp_srtt = λ k. 20;
  ikcp_create = λ i k. (true, i);
  ikcp_configure = λ k. k;
  ikcp_send = λ k bytes. (pos 0, k);
  ikcp_input = λ k bytes. (pos 0, k);
  ikcp_peeksize = λ k. negsuc 0;
  ikcp_recv = λ k n. (negsuc 0, [], k);
  ikcp_recv_null = λ k n. (negsuc 0, k);
  ikcp_update = λ k t. (k, []);
  ikcp_waitsnd = λ k. 0;
  ikcp_restart = λ k. k;
  aes_cbc_encrypt = λ key iv x. (x, iv);
  aes_cbc_decrypt = λ key iv x. x;
  hmac = λ n a t. some (replicate 20 7);
  dh_generate_key = λ d. some (5, 6);
  dh_compute_key = λ a b. (pos 16, replicate 16 3);
  bn_bn2bin = λ n. n ∷ [];
  bn_bin2bn = λ l. some (head_or l 0);
  random_byte = λ d. 9;
}

pub demo_library-IsCbc : IsCbc demo_library
demo_library-IsCbc = record {
  same_length = λ key iv x whole. refl;
  inverse = λ key iv x y whole whole'. refl;
}

abbrev pub addr_of : ℕ → SockAddr
addr_of p = record { family = 2; port = p; ip = 16777343 }

abbrev pub zero_mem : ℕ → ℕ
zero_mem i = 0

abbrev pub demo_host : ℕ → Host
demo_host t = record {
  now = t;
  now_ms = t;
  malloc = λ n. true;
  next_packet = 0;
  send_queue = [];
  n2m = new_ring zero_mem 1024;
  map_conn = [];
  map_closed = [];
  security_key = replicate 16 0;
  overrun = false;
}

-- Connection 5 of port 80, bound, with a heartbeat at time 100.
abbrev pub demo_connect : ConnState → NetConnect ℕ
demo_connect s = record {
  self = 1;
  conn_id = 5;
  state = s;
  client_addr = addr_of 80;
  create_time = 100;
  bind_data = 9;
  stat = record zero_stat { refresh_time = 100; recv_cnt = 6000 };
  kcp = record { ikcp = 5; need_recv = true };
  merge_packet = none;
  encypt_data = record zero_encypt_data { key_len = 16 };
  cookies = replicate 20 7;
  last_heartbeat = 100;
  disconnect_time = 100;
  fin_begin = 100;
  send_fin_time = 0;
  time_wait_time = 100;
  close_time = 0;
  network_syn = 0;
  close_reason = 0;
}
