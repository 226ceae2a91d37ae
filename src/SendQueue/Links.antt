-- ===== src/SendQueue/Links.antt =====
-- How the writes of `AddTail` and `Del` in src/net/SendQueue.cpp change the links of a list.
use ttserver.Base.{
  suc, ◌≡◌, ◌≢◌, refl, true, false, ◌||◌, mem, erase, List, [], ◌∷◌, ◌++◌, ◌==◌, arith, length,
  Bool-cases, inl, inr,
}
use ttserver.SendQueue.{Ptr, put}
use ttserver.SendQueue.Chain.{Distinct, Seg}

pub mem-snoc : (q p : Ptr) (xs : List Ptr) → mem q (xs ++ p ∷ []) ≡ (mem q xs || (q == p))
unfolding mem
mem-snoc q p [] = ground arith
mem-snoc q p (x ∷ xs) = ground (arith, mem-snoc q p xs)

pub Distinct-snoc :
    (p : Ptr) (xs : List Ptr) → Distinct xs → mem p xs ≡ false → Distinct (xs ++ p ∷ [])
unfolding mem Distinct
Distinct-snoc p [] d h = (refl, tt)
Distinct-snoc p (x ∷ xs) d h =
    (ground (arith, mem-snoc x p xs, d.0), Distinct-snoc p xs d.1 (ground arith))

pub mem-erase : (q p : Ptr) (xs : List Ptr) → mem q xs ≡ false → mem q (erase p xs) ≡ false
unfolding mem erase
mem-erase q p [] h = refl
mem-erase q p (x ∷ xs) h = ground (arith, mem-erase q p xs)

pub length-erase :
    (p : Ptr) (xs : List Ptr) → mem p xs ≡ true → length xs ≡ suc (length (erase p xs))
unfolding mem erase
length-erase p [] h = ground arith
length-erase p (x ∷ xs) h = ground (arith, length-erase p xs)

pub Distinct-erase : (p : Ptr) (xs : List Ptr) → Distinct xs → Distinct (erase p xs)
unfolding mem erase Distinct
Distinct-erase p [] d = tt
Distinct-erase p (x ∷ xs) d = ground (arith, Distinct-erase p xs d.1, mem-erase x p xs d.0)

module _ (next pre : Ptr → Ptr) where
  -- The node before `b` is `a` or one of the list.
  pub Seg-last : (a b : Ptr) (xs : List Ptr) → Seg next pre a b xs → mem (pre b) (a ∷ xs) ≡ true
  unfolding mem Seg
  Seg-last a b [] s = ground arith
  Seg-last a b (p ∷ xs) s = ground (arith, Seg-last p b xs s.2)

  -- The node after a node of the list is one of the list or `b`.
  pub Seg-after :
      (a b n : Ptr) (xs : List Ptr)
      → Seg next pre a b xs
      → mem n xs ≡ true
      → mem (next n) (b ∷ xs) ≡ true
  unfolding mem Seg
  Seg-after a b n [] s h = ground arith
  Seg-after a b n (p ∷ []) s h = ground arith
  Seg-after a b n (p ∷ q ∷ xs) s h = ground (arith, Seg-after p b n (q ∷ xs) s.2)

  -- The node before a node of the list is `a` or one of the list.
  pub Seg-before :
      (a b n : Ptr) (xs : List Ptr)
      → Seg next pre a b xs
      → mem n xs ≡ true
      → mem (pre n) (a ∷ xs) ≡ true
  unfolding mem Seg
  Seg-before a b n [] s h = ground arith
  Seg-before a b n (p ∷ xs) s h = ground (arith, Seg-before p b n xs s.2)

  -- Links that the list does not use may be written.
  pub Seg-frame :
      (a b x y v w : Ptr) (xs : List Ptr)
      → Seg next pre a b xs
      → mem x (a ∷ xs) ≡ false
      → mem y xs ≡ false
      → y ≢ b
      → Seg (put next x v) (put pre y w) a b xs
  unfolding mem Seg
  Seg-frame a b x y v w [] s hx hy ne = ground arith
  Seg-frame a b x y v w (p ∷ xs) s hx hy ne =
      (ground arith, ground arith, Seg-frame p b x y v w xs s.2 (ground arith) (ground arith) ne)

  -- `AddTail` in front of `b`: the node stands at the end.
  pub Seg-snoc :
      (a b p l : Ptr) (xs : List Ptr)
      → Seg next pre a b xs
      → l ≡ pre b
      → Distinct (a ∷ xs)
      → mem p (a ∷ xs) ≡ false
      → mem b xs ≡ false
      → p ≢ b
      → Seg (put (put next p b) l p) (put (put pre p l) b p) a b (xs ++ p ∷ [])
  unfolding mem Seg Distinct
  Seg-snoc a b p l [] s e d out hb ne = ground arith
  Seg-snoc a b p l (q ∷ xs) s e d out hb ne =
      let last = Seg-last q b xs s.2 in
      (
        ground (arith, d.0),
        ground arith,
        Seg-snoc q b p l xs s.2 e d.1 (ground arith) (ground arith) ne,
      )

  -- `Del` of the first node.
  Seg-tail :
      (a b n : Ptr) (xs : List Ptr)
      → Seg next pre a b (n ∷ xs)
      → Distinct (a ∷ n ∷ xs)
      → mem b (n ∷ xs) ≡ false
      → Seg (put next a (next n)) (put pre (next n) a) a b xs
  unfolding mem Seg Distinct
  Seg-tail a b n [] s d hb = ground arith
  Seg-tail a b n (z ∷ xs) s d hb =
      let dz = d.1.1 in
      (
        ground arith,
        ground arith,
        Seg-frame z b a (next n) (next n) a xs s.2.2 (ground (arith, d.0)) (ground (arith, dz.0))
            (ground arith),
      )

  -- `Del` of a node of the list.
  pub Seg-erase :
      (a b n : Ptr) (xs : List Ptr)
      → Seg next pre a b xs
      → Distinct (a ∷ xs)
      → mem b xs ≡ false
      → mem n xs ≡ true
      → Seg (put next (pre n) (next n)) (put pre (next n) (pre n)) a b (erase n xs)
  unfolding mem Seg Distinct erase
  Seg-erase a b n [] s d hb h = absurd (ground arith)
  Seg-erase a b n (q ∷ xs) s d hb h = elim (Bool-cases (n == q)) [
    | inl hit ↦ let same : n ≡ q = ground arith in rw (hit, same, s.1) (Seg-tail a b q xs s d hb)
    | inr miss ↦
        let before = Seg-before q b n xs s.2 in
        let after = Seg-after q b n xs s.2 in
        rw miss (
          ground (arith, d.0, before),
          ground (arith, d.1.0, after),
          Seg-erase q b n xs s.2 d.1 (ground arith) (ground arith),
        )
  ]
