-- ===== src/Index/Key.antt =====
-- include/index/index_page.hpp: keys and their comparison.
use somedb.Base.{
  ℕ, zero, suc, ◌≡◌, refl, Bool, true, false, List, [], ◌∷◌, ltb, ◌==◌, ◌&&◌, if◌then◌else◌, min,
  arith,
}

-- The sign of the `int` that `memcmp` returns.
pub data Sign : Type 0 where
  below same above : Sign

pub record BTreeKey : Type 0 where
  pub bytes : List ℕ
  pub size : ℕ

-- `memcmp(a, b, n)` on bytes; both hold at least `n` of them where it is called.
unfoldable pub memcmp : ℕ → List ℕ → List ℕ → Sign
memcmp (suc n) (x ∷ xs) (y ∷ ys) =
    if x == y then memcmp n xs ys else if ltb x y then below else above
memcmp _ _ _ = same

unfoldable pub cmp_keys : BTreeKey → BTreeKey → Sign
cmp_keys a b = memcmp (min a.size b.size) a.bytes b.bytes

unfoldable pub same_sign : Sign → Bool
same_sign same = true
same_sign _ = false

-- `operator==`
unfoldable pub key_eq : BTreeKey → BTreeKey → Bool
key_eq a b = a.size == b.size && same_sign (memcmp a.size a.bytes b.bytes)

abbrev pub flip : Sign → Sign
flip below = above
flip same = same
flip above = below

-- The comparison of two keys in the other order has the other sign.
memcmp-flip : (n : ℕ) (xs ys : List ℕ) → memcmp n ys xs ≡ flip (memcmp n xs ys)
unfolding memcmp
memcmp-flip zero xs ys = refl
memcmp-flip (suc n) [] [] = refl
memcmp-flip (suc n) [] (y ∷ ys) = refl
memcmp-flip (suc n) (x ∷ xs) [] = refl
memcmp-flip (suc n) (x ∷ xs) (y ∷ ys) = ground (arith, memcmp-flip n xs ys)

-- The comparison of two keys in the other order has the other sign.
pub cmp_keys-flip : (a b : BTreeKey) → cmp_keys b a ≡ flip (cmp_keys a b)
unfolding cmp_keys
cmp_keys-flip a b =
    let e : min b.size a.size ≡ min a.size b.size = omega arith in
    rw e (memcmp-flip (min a.size b.size) a.bytes b.bytes)
