-- ===== src/ChannelUri/Params/Order.antt =====
-- What an iteration over `ParamsMap` may rely on: it visits every entry once, in some order.
use mathlib.Core.List.{Permᴰ}
use aeron_archive_client.Prelude.{
  ◌≡◌, refl, ap, suc, length, ◌∙◌, Bool, true, none, some, List, [], ◌∷◌, arith, Bytes, equal_iff,
  all,
}
use aeron_archive_client.ChannelUri.Params.{
  Entry, ParamsMap, find, put, put_all, IsDistinct, find-put,
}

pub record IterationOrder : Type 0 where
  pub iterate : ParamsMap → List Entry
  pub perm : (m : ParamsMap) → Permᴰ m (iterate m)

-- Reordering keeps the keys distinct and every value where it is found.
find-perm :
    {m n : List Entry}
    → Permᴰ m n
    → IsDistinct m
    → IsDistinct n × ((k : Bytes) → find k n ≡ find k m)
unfolding find
find-perm Permᴰ.nil h = (h, λ k. refl)
find-perm (Permᴰ.cons {a = (j, v)} {b = (i, w)} e p) h =
    let ih = find-perm p h.1 in (ground (arith, e, ih.1 j, ih.0), λ k. ground (arith, e, ih.1 k))
find-perm (Permᴰ.swap {a = (j, v)} {b = (i, w)} {a' = (j', v')} {b' = (i', w')} {l = l} e f) h = (
  ground (arith, e, f, equal_iff j i, equal_iff i j),
  λ k. ground (arith, e, f, equal_iff j k, equal_iff i k, equal_iff j i, equal_iff i j),
)
find-perm (Permᴰ.trans p q) h =
    let first = find-perm p h in
    let second = find-perm q first.0 in (second.0, λ k. second.1 k ∙ first.1 k)

-- Writing distinct entries into a map: each is found, and the rest is as before.
find-put_all :
    (k : Bytes) (m : ParamsMap) (es : List Entry)
    → IsDistinct es
    → find k (put_all m es) ≡ elim (find k es) [ some v ↦ some v | none ↦ find k m ]
unfolding find
find-put_all k m [] h = refl
find-put_all k m ((j, v) ∷ es) h =
    ground (arith, find-put_all k (put j v m) es h.1, find-put j k v m, equal_iff j k)

module _ (order : IterationOrder) where
  open order use {iterate, perm}

  -- What is written entry by entry from an iteration has the values of the map iterated over.
  pub find-put_all-iterate :
      (k : Bytes) (m : ParamsMap) → IsDistinct m → find k (put_all [] (iterate m)) ≡ find k m
  unfolding find
  find-put_all-iterate k m h =
      let p = find-perm (perm m) h in ground (arith, find-put_all k [] (iterate m) p.0, p.1 k)

pub all-perm : (p : Entry → Bool) {m n : List Entry} → Permᴰ m n → all p m ≡ true → all p n ≡ true
all-perm p Permᴰ.nil h = h
all-perm p (Permᴰ.cons {a = a} {b = b} e q) h = ground (arith, e, all-perm p q)
all-perm p (Permᴰ.swap e f) h = ground (arith, e, f)
all-perm p (Permᴰ.trans q r) h = all-perm p r (all-perm p q h)

pub length-perm : {m n : List Entry} → Permᴰ m n → length n ≡ length m
length-perm Permᴰ.nil = refl
length-perm (Permᴰ.cons e q) = ap suc (length-perm q)
length-perm (Permᴰ.swap e f) = refl
length-perm (Permᴰ.trans q r) = length-perm r ∙ length-perm q
