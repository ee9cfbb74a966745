-- ===== src/Index/Page/Shift.antt =====
-- src/index/index_page.cpp: vectors at an index, and the shift in `insertIntoNode`.
use somedb.Base.{
  ℕ, zero, suc, ◌+◌, ◌-◌, ◌≡◌, refl, sym, ap, ◌∙◌, true, some, List, [], ◌∷◌, ◌++◌, map,
  append_assoc, arith, length, length-append, get_elem?-append, set-append, ltb, take,
}
use mathlib.Core.List.{map-append}
use somedb.Index.Key.{BTreeKey}
use somedb.Index.Page.{at, put, resize, drop_last, shift_right, insert_middle}

module _ {ℓ} {A : Type ℓ} where
  pub at-length :
      (i : ℕ) (front : List A) (x : A) (back : List A)
      → i ≡ length front
      → at (front ++ x ∷ back) i ≡ some x
  at-length i front x back e = rw e (get_elem?-append front x back)

  pub put-length :
      (i : ℕ) (front : List A) (x v : A) (back : List A)
      → i ≡ length front
      → put (front ++ x ∷ back) i v ≡ some (front ++ v ∷ back)
  unfolding put
  put-length i front x v back e =
      let inside : ltb (length front) (length (front ++ x ∷ back)) ≡ true =
        ground (arith, length-append front (x ∷ back)) in
      rw e (rw (inside, set-append))

  pub resize-suc : (d : A) (xs : List A) → resize d (length xs + 1) xs ≡ xs ++ d ∷ []
  unfolding resize
  resize-suc d xs = let e : length xs + 1 ≡ suc (length xs) = omega arith in rw e (go d xs)
    where
      go : (d : A) (xs : List A) → resize d (suc (length xs)) xs ≡ xs ++ d ∷ []
      go d [] = refl
      go d (x ∷ xs) = ap (λ (t : List A). x ∷ t) (go d xs)

  pub drop_last-append : (xs : List A) (d : A) → drop_last (xs ++ d ∷ []) ≡ xs
  unfolding drop_last
  drop_last-append xs d =
      let e : length (xs ++ d ∷ []) - 1 ≡ length xs = omega (arith, length-append xs (d ∷ [])) in
      rw e (go xs)
    where
      go : (xs : List A) → take (length xs) (xs ++ d ∷ []) ≡ xs
      go [] = refl
      go (x ∷ xs) = ap (λ (t : List A). x ∷ t) (go xs)

  pub snoc :
      (front : List A) (x : A) (back : List A) → front ++ x ∷ back ≡ (front ++ x ∷ []) ++ back
  snoc front x back = sym (append_assoc front (x ∷ []) back)

pub length-snoc {ℓ} :
    {A : Type ℓ} (front : List A) (x : A) → length (front ++ x ∷ []) ≡ length front + 1
length-snoc front x = omega (arith, length-append front (x ∷ []))

pub length-map {ℓ κ} :
    {A : Type ℓ} {B : Type κ} (f : A → B) (xs : List A) → length (map f xs) ≡ length xs
length-map f [] = refl
length-map f (x ∷ xs) = ap suc (length-map f xs)

-- The entries of a node: a key with its value.
abbrev pub Entry {ℓ} : Type ℓ → Type ℓ
Entry V = BTreeKey × V

module _ {ℓ} {V : Type ℓ} where
  abbrev pub keys_of : List (Entry V) → List BTreeKey
  keys_of es = map (λ (e : Entry V). e.0) es

  abbrev pub values_of : List (Entry V) → List V
  values_of es = map (λ (e : Entry V). e.1) es

  -- The loop that shifts writes each entry one place to the right.
  shift_right-entries :
      (n j : ℕ) (ks : List BTreeKey) (vs : List V) (e : Entry V) (back : List (Entry V))
      (dk : BTreeKey) (dv : V)
      → j + 2 ≡ length ks
      → j + 2 ≡ length vs
      → n ≡ suc (length back)
      → shift_right n j
          (ks ++ (keys_of back ++ dk ∷ []))
          (vs ++ (values_of back ++ dv ∷ []))
          e.0
          e.1
        ≡ some (ks ++ keys_of (e ∷ back), vs ++ values_of (e ∷ back))
  unfolding shift_right
  shift_right-entries zero j ks vs e back dk dv hk hv hn = absurd (omega arith)
  shift_right-entries (suc n) j ks vs e [] dk dv hk hv hn =
      let done : n ≡ 0 = omega arith in
      rw (
        at-length (j + 2) ks dk [] hk,
        at-length (j + 2) vs dv [] hv,
        put-length (j + 2) ks dk e.0 [] hk,
        put-length (j + 2) vs dv e.1 [] hv,
        done,
      )
  shift_right-entries (suc n) j ks vs e (b ∷ back) dk dv hk hv hn =
      rw
        (
          at-length (j + 2) ks b.0 (keys_of back ++ dk ∷ []) hk,
          at-length (j + 2) vs b.1 (values_of back ++ dv ∷ []) hv,
          put-length (j + 2) ks b.0 e.0 (keys_of back ++ dk ∷ []) hk,
          put-length (j + 2) vs b.1 e.1 (values_of back ++ dv ∷ []) hv,
        )
        (rw
          (
            snoc ks e.0 (keys_of back ++ dk ∷ []),
            snoc vs e.1 (values_of back ++ dv ∷ []),
            snoc ks e.0 (keys_of (b ∷ back)),
            snoc vs e.1 (values_of (b ∷ back)),
          )
          (shift_right-entries n (j + 1) (ks ++ e.0 ∷ []) (vs ++ e.1 ∷ []) b back dk dv
            (omega (arith, length-snoc ks e.0)) (omega (arith, length-snoc vs e.1)) (omega arith)))

  -- The middle case: the entry goes between two neighbours.
  pub insert_middle-entries :
      (size : ℕ) (front : List (Entry V)) (x y : Entry V) (back : List (Entry V)) (dk : BTreeKey)
      (dv : V) (key : BTreeKey) (val : V)
      → size ≡ length front + 2 + length back
      → insert_middle size
          (length front)
          (keys_of (front ++ x ∷ y ∷ back) ++ dk ∷ [])
          (values_of (front ++ x ∷ y ∷ back) ++ dv ∷ [])
          key
          val
        ≡ some (
          keys_of (front ++ x ∷ (key, val) ∷ y ∷ back),
          values_of (front ++ x ∷ (key, val) ∷ y ∷ back),
        )
  unfolding insert_middle
  insert_middle-entries size front x y back dk dv key val h =
      let ks = keys_of front ++ x.0 ∷ [] in
      let vs = values_of front ++ x.1 ∷ [] in
      let ek : keys_of (front ++ x ∷ y ∷ back) ++ dk ∷ [] ≡ ks ++ y.0 ∷ (keys_of back ++ dk ∷ []) =
        simp (map-append, append_assoc) in
      let ev : values_of (front ++ x ∷ y ∷ back) ++ dv ∷ []
          ≡ vs ++ y.1 ∷ (values_of back ++ dv ∷ []) =
        simp (map-append, append_assoc) in
      let lk : length front + 1 ≡ length ks =
        omega (arith, length-snoc (keys_of front) x.0, length-map (λ (e : Entry V). e.0) front) in
      let lv : length front + 1 ≡ length vs =
        omega (arith, length-snoc (values_of front) x.1, length-map (λ (e : Entry V). e.1) front) in
      let run =
        shift_right-entries (size - 1 - length front) (length front) (ks ++ key ∷ [])
          (vs ++ val ∷ []) y back dk dv (omega (arith, length-snoc ks key))
          (omega (arith, length-snoc vs val)) (omega arith) in
      rw
        (
          ek,
          ev,
          at-length (length front + 1) ks y.0 (keys_of back ++ dk ∷ []) lk,
          at-length (length front + 1) vs y.1 (values_of back ++ dv ∷ []) lv,
          put-length (length front + 1) ks y.0 key (keys_of back ++ dk ∷ []) lk,
          put-length (length front + 1) vs y.1 val (values_of back ++ dv ∷ []) lv,
        )
        (rw (snoc ks key (keys_of back ++ dk ∷ []), snoc vs val (values_of back ++ dv ∷ []))
          (run ∙ simp (map-append, append_assoc)))
