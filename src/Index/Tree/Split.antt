-- ===== src/Index/Tree/Split.antt =====
-- include/index/btree_index.hpp: the two nodes that a split makes of one.
use somedb.Base.{
  ℕ, zero, suc, ◌+◌, ◌-◌, ◌/◌, ◌≡◌, refl, ap, ◌∙◌, Bool, length-take, length-append, true, false,
  some, List, [], ◌∷◌, ◌++◌, length, take, drop, map, arith,
}
use mathlib.Core.List.{map-append}
use somedb.Index.Page.{Rid, at, children, vec_first_half, vec_second_half}
use somedb.Index.Page.Halves.{vec_first_half-second_half}
use somedb.Index.Page.Shift.{Entry, keys_of, values_of, length-map, at-length}
use somedb.Index.Serial.RoundTrip.{leaf_page, internal_page}
use somedb.Index.Tree.{redistribute_records, redistribute_children}

module _ {A B : Type 0} (f : A → B) where
  take-map : (n : ℕ) (xs : List A) → take n (map f xs) ≡ map f (take n xs)
  take-map zero xs = refl
  take-map (suc n) [] = refl
  take-map (suc n) (x ∷ xs) = ap (λ (t : List B). f x ∷ t) (take-map n xs)

  drop-map : (n : ℕ) (xs : List A) → drop n (map f xs) ≡ map f (drop n xs)
  drop-map zero xs = refl
  drop-map (suc n) [] = refl
  drop-map (suc n) (x ∷ xs) = drop-map n xs

  vec_first_half-map :
      (b : Bool) (xs : List A) → vec_first_half (map f xs) b ≡ map f (vec_first_half xs b)
  unfolding vec_first_half
  vec_first_half-map b xs = rw (length-map f xs) (take-map _ xs)

  vec_second_half-map :
      (b : Bool) (xs : List A) → vec_second_half (map f xs) b ≡ map f (vec_second_half xs b)
  unfolding vec_second_half
  vec_second_half-map b xs = rw (length-map f xs) (drop-map _ xs)

vec_first_half-length :
    {A : Type 0} (xs : List A) → length (vec_first_half xs false) ≡ length xs / 2
unfolding vec_first_half
vec_first_half-length xs = omega (arith, length-take (length xs / 2 + 0) xs)

module _ {A : Type 0} (mid : A) (back : List A) where
  take-front : (n : ℕ) (front : List A) → n ≡ length front → take n (front ++ mid ∷ back) ≡ front
  take-front zero [] h = refl
  take-front (suc n) [] h = absurd (omega arith)
  take-front zero (x ∷ front) h = absurd (omega arith)
  take-front (suc n) (x ∷ front) h = ap (λ (t : List A). x ∷ t) (take-front n front (omega arith))

  take-mid :
      (n : ℕ) (front : List A)
      → n ≡ length front
      → take (suc n) (front ++ mid ∷ back) ≡ front ++ mid ∷ []
  take-mid zero [] h = refl
  take-mid (suc n) [] h = absurd (omega arith)
  take-mid zero (x ∷ front) h = absurd (omega arith)
  take-mid (suc n) (x ∷ front) h = ap (λ (t : List A). x ∷ t) (take-mid n front (omega arith))

  drop-mid : (n : ℕ) (front : List A) → n ≡ length front → drop (suc n) (front ++ mid ∷ back) ≡ back
  drop-mid zero [] h = refl
  drop-mid (suc n) [] h = absurd (omega arith)
  drop-mid zero (x ∷ front) h = absurd (omega arith)
  drop-mid (suc n) (x ∷ front) h = drop-mid n front (omega arith)

  -- The three halves of a vector whose middle is known.
  halves :
      (front : List A)
      → length front ≡ length (front ++ mid ∷ back) / 2
      → (vec_first_half (front ++ mid ∷ back) false ≡ front)
        × (vec_first_half (front ++ mid ∷ back) true ≡ front ++ mid ∷ [])
        × (vec_second_half (front ++ mid ∷ back) false ≡ back)
  unfolding vec_first_half vec_second_half
  halves front h =
      let n = length front in
      let z : length (front ++ mid ∷ back) / 2 + 0 ≡ n = omega (arith, h) in
      let s : length (front ++ mid ∷ back) / 2 + 1 ≡ suc n = omega (arith, h) in
      (rw z (take-front n front refl), rw s (take-mid n front refl), rw s (drop-mid n front refl))

-- A split of a leaf gives its entries, in their order, to the two nodes: the old one keeps its
-- header fields and half of the entries, rounded down, and the new leaf has the others.
pub redistribute_records-halves :
    (flags rightmost_ptr next new_flags new_rightmost new_next : ℕ) (es : List (Entry Rid))
    → (front : List (Entry Rid)) × (back : List (Entry Rid)) × (redistribute_records
          (leaf_page new_flags new_rightmost new_next [])
          (leaf_page flags rightmost_ptr next es)
        ≡ some (
          leaf_page new_flags new_rightmost new_next back,
          leaf_page flags rightmost_ptr next front,
        ))
      × (front ++ back ≡ es)
      × (length front ≡ length es / 2)
unfolding redistribute_records
redistribute_records-halves flags rightmost_ptr next new_flags new_rightmost new_next es =
    let key = λ (e : Entry Rid). e.0 in
    let val = λ (e : Entry Rid). e.1 in
    (
      vec_first_half es false,
      vec_second_half es true,
      rw (
        vec_first_half-map key false es,
        vec_first_half-map val false es,
        vec_second_half-map key true es,
        vec_second_half-map val true es,
      ),
      (vec_first_half-second_half es).0,
      vec_first_half-length es,
    )

-- A split of an internal node, with as many keys as children besides the rightmost pointer, at the
-- middle of its entries: the new node has the entries behind the middle, and the rightmost pointer;
-- the old one has the keys in front of it, the child at the middle as its rightmost pointer, and
-- the children in front of it with that child behind them, one more than it has keys.
pub redistribute_children-halves :
    (flags rightmost_ptr next new_flags new_rightmost new_next : ℕ) (front : List (Entry ℕ))
    (mid : Entry ℕ) (back : List (Entry ℕ))
    → length front ≡ length (front ++ mid ∷ back) / 2
    → redistribute_children
        (internal_page new_flags new_rightmost new_next [])
        (internal_page flags rightmost_ptr next (front ++ mid ∷ back))
      ≡ some (
        internal_page new_flags rightmost_ptr new_next back,
        record (internal_page flags mid.1 next front) {
          values = children (values_of front ++ mid.1 ∷ []);
        },
      )
unfolding redistribute_children
redistribute_children-halves flags rightmost_ptr next new_flags new_rightmost new_next front mid
      back h =
    let key = λ (e : Entry ℕ). e.0 in
    let val = λ (e : Entry ℕ). e.1 in
    let es = front ++ mid ∷ back in
    let (first, with_mid, second) = halves mid back front h in
    let keys_back : vec_second_half (keys_of es) false ≡ keys_of back =
      vec_second_half-map key false es ∙ ap keys_of second in
    let vals_back : vec_second_half (values_of es) false ≡ values_of back =
      vec_second_half-map val false es ∙ ap values_of second in
    let keys_front : vec_first_half (keys_of es) false ≡ keys_of front =
      vec_first_half-map key false es ∙ ap keys_of first in
    let vals_front : vec_first_half (values_of es) true ≡ values_of front ++ mid.1 ∷ [] =
      vec_first_half-map val true es ∙ ap values_of with_mid ∙ map-append val front (mid ∷ []) in
    let last : at (values_of front ++ mid.1 ∷ []) (length (values_of front ++ mid.1 ∷ []) - 1)
        ≡ some mid.1 =
      at-length (length (values_of front ++ mid.1 ∷ []) - 1) (values_of front) mid.1 []
        (omega (arith, length-append (values_of front) (mid.1 ∷ []))) in
    rw (keys_back, vals_back, keys_front, vals_front, last)
