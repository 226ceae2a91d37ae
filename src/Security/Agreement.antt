-- ===== src/Security/Agreement.antt =====
-- Both sides of the Diffie-Hellman exchange.
use ttserver.Base.{
  ℕ, ◌+◌, ◌≡◌, refl, sym, ap, ap₂, ◌∙◌, subst, arith, List, some, inl, inr, Option-cases, length,
  take, drop, replicate, take-append, memcpy,
}
use ttserver.Library.{Library}
use ttserver.Host.{succ, fail}
use ttserver.Security.Dh.{
  Exchange, with_key, put_num, put_priv, key_of, server_pair, client_pair, shared_key,
  handle_handshake2, handle_handshake1_ack, handle_handshake2_ack,
}

-- What OpenSSL promises: the two sides compute the same key, and a number survives its bytes.
pub record IsDh {K : Type 0} (lib : Library K) : Type 0 where
  pub agree :
      (d1 d2 p1 s1 p2 s2 : ℕ)
      → lib.dh_generate_key d1 ≡ some (p1, s1)
      → lib.dh_generate_key d2 ≡ some (p2, s2)
      → lib.dh_compute_key p2 s1 ≡ lib.dh_compute_key p1 s2
  pub survives : (n : ℕ) → lib.bn_bin2bn (lib.bn_bn2bin n) ≡ some n

-- The fields before a call: zeros, and the lengths of the fields.
abbrev pub blank : Exchange
blank = record {
  ret = fail;
  num = replicate 16 0;
  num_len = 16;
  key = replicate 16 0;
  key_len = 16;
}

take-memcpy_start : (buff bytes : List ℕ) → take (length bytes) (memcpy buff 0 bytes) ≡ bytes
unfolding memcpy
take-memcpy_start buff bytes = take-append bytes (drop (0 + length bytes) buff) (length bytes) refl

-- Two exchanges with the same outcome.
abbrev pub IsSameKey : Exchange → Exchange → Type 0
IsSameKey e f = (f.ret ≡ e.ret) × (f.key ≡ e.key) × (f.key_len ≡ e.key_len)

module _ {K : Type 0} (lib : Library K) where
  -- The client's numbers, the server's exchange, and the client's end of it.
  abbrev pub client_side : ℕ → Exchange
  client_side d1 = handle_handshake1_ack lib d1 blank

  abbrev pub server_side : ℕ → ℕ → Exchange
  server_side d1 d2 = let c = client_side d1 in handle_handshake2 lib d2 c.num c.num_len blank

  abbrev pub end_with : Exchange → Exchange → Exchange
  end_with s c = handle_handshake2_ack lib s.num s.num_len c.num c.num_len c.key c.key_len blank

  abbrev pub client_end : ℕ → ℕ → Exchange
  client_end d1 d2 = end_with (server_side d1 d2) (client_side d1)

module _ {K : Type 0} (lib : Library K) (dh : IsDh lib) where
  open dh use {agree, survives}

  client_pair-succ :
      (p s : ℕ)
      → (client_pair lib blank (some (p, s))).ret ≡ succ
      → client_pair lib blank (some (p, s))
        ≡ record (put_priv lib (put_num lib blank p) s) { ret = succ }
  client_pair-succ p s e = ground arith

  server_pair-succ :
      (a : List ℕ) (a_len p s : ℕ)
      → (server_pair lib a a_len blank (some (p, s))).ret ≡ succ
      → server_pair lib a a_len blank (some (p, s))
        ≡ key_of lib (put_num lib blank p) (lib.bn_bin2bn (take a_len a)) s
  server_pair-succ a a_len p s e = ground arith

  -- The number that was put into a field is read out of it.
  read_num :
      (n : ℕ) (buff : List ℕ)
      → lib.bn_bin2bn (take (length (lib.bn_bn2bin n)) (memcpy buff 0 (lib.bn_bn2bin n))) ≡ some n
  read_num n buff = ap lib.bn_bin2bn (take-memcpy_start buff (lib.bn_bn2bin n)) ∙ survives n

  module _ (d1 d2 p1 s1 p2 s2 : ℕ) (g1 : lib.dh_generate_key d1 ≡ some (p1, s1))
      (g2 : lib.dh_generate_key d2 ≡ some (p2, s2)) where
    client_drawn : Exchange
    client_drawn = record (put_priv lib (put_num lib blank p1) s1) { ret = succ }

    server_drawn : Exchange
    server_drawn = with_key (put_num lib blank p2) (lib.dh_compute_key p1 s2)

    client_side-eq : (client_side lib d1).ret ≡ succ → client_side lib d1 ≡ client_drawn
    unfolding handle_handshake1_ack client_drawn
    client_side-eq r =
        let drawn = ap (client_pair lib blank) g1 in
        drawn ∙ client_pair-succ p1 s1 (ap (λ (e : Exchange). e.ret) (sym drawn) ∙ r)

    server_of-eq :
        (handle_handshake2 lib d2 client_drawn.num client_drawn.num_len blank).ret ≡ succ
        → handle_handshake2 lib d2 client_drawn.num client_drawn.num_len blank ≡ server_drawn
    unfolding handle_handshake2 client_drawn server_drawn
    server_of-eq r =
        let a = client_drawn.num in
        let n = client_drawn.num_len in
        let drawn = ap (server_pair lib a n blank) g2 in
        drawn
        ∙ server_pair-succ a n p2 s2 (ap (λ (e : Exchange). e.ret) (sym drawn) ∙ r)
        ∙ ap (λ o. key_of lib (put_num lib blank p2) o s2) (read_num p1 (replicate 16 0))

    end_of-eq :
        handle_handshake2_ack lib server_drawn.num server_drawn.num_len client_drawn.num
          client_drawn.num_len client_drawn.key client_drawn.key_len blank
        ≡ with_key blank (lib.dh_compute_key p2 s1)
    unfolding handle_handshake2_ack client_drawn server_drawn
    end_of-eq =
        ap
          (λ o.
            shared_key lib blank o (lib.bn_bin2bn (take client_drawn.key_len client_drawn.key))
              (lib.bn_bin2bn (take server_drawn.num_len server_drawn.num)))
          (read_num p1 (replicate 16 0))
        ∙ ap₂ (λ o q. shared_key lib blank (some p1) o q) (read_num s1 (replicate 16 0))
            (read_num p2 (replicate 16 0))

    drawn-IsSameKey : IsSameKey server_drawn (with_key blank (lib.dh_compute_key p2 s1))
    unfolding server_drawn
    drawn-IsSameKey =
        subst
          (λ x.
            IsSameKey (with_key (put_num lib blank p2) x)
              (with_key blank (lib.dh_compute_key p2 s1)))
          (agree d1 d2 p1 s1 p2 s2 g1 g2) (refl, refl, refl)

    client_end-drawn :
        (client_side lib d1).ret ≡ succ
        → (server_side lib d1 d2).ret ≡ succ
        → IsSameKey (server_side lib d1 d2) (client_end lib d1 d2)
    client_end-drawn r1 r2 =
        let drawn = client_side-eq r1 in
        let served = server_of-eq (
          ap (λ (e : Exchange). (handle_handshake2 lib d2 e.num e.num_len blank).ret) (sym drawn)
          ∙ r2) in
        subst
          (λ e.
            IsSameKey (handle_handshake2 lib d2 e.num e.num_len blank)
              (end_with lib (handle_handshake2 lib d2 e.num e.num_len blank) e))
          (sym drawn)
          (subst (λ e. IsSameKey e (end_with lib e client_drawn)) (sym served)
            (subst (λ e. IsSameKey server_drawn e) (sym end_of-eq) drawn-IsSameKey))

  -- If Diffie-Hellman gives both sides the same key and a number survives its bytes: when the
  -- client's first step and the server's step succeed, the client's last step, on what the server
  -- sends and what the client kept, returns what the server's step returned, with the same key
  -- and the same length.
  pub client_end-IsSameKey :
      (d1 d2 : ℕ)
      → (client_side lib d1).ret ≡ succ
      → (server_side lib d1 d2).ret ≡ succ
      → IsSameKey (server_side lib d1 d2) (client_end lib d1 d2)
  unfolding handle_handshake1_ack handle_handshake2
  client_end-IsSameKey d1 d2 r1 r2 = elim (Option-cases (lib.dh_generate_key d1)) [
    | inl no_pair ↦ absurd (ground arith)
    | inr ((p1, s1), g1) ↦ elim (Option-cases (lib.dh_generate_key d2)) [
      | inl no_pair ↦ absurd (ground arith)
      | inr ((p2, s2), g2) ↦ client_end-drawn d1 d2 p1 s1 p2 s2 g1 g2 r1 r2
    ]
  ]
