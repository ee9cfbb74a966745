-- ===== src/Index/Page/Insert.antt =====
-- src/index/index_page.cpp: `insertIntoNode` puts one entry into its place.
use somedb.Base.{
  ℕ, min, zero, suc, ◌+◌, ◌-◌, ◌%◌, ◌^◌, ◌<◌, ◌≡◌, ◌≢◌, refl, sym, ap, ◌∙◌, true, false, inl, inr,
  Option, some, List, [], ◌∷◌, ◌++◌, append_assoc, append-nil, arith, length, Bool-cases,
}
use mathlib.Core.List.{map-append}
use somedb.Index.Key.{BTreeKey, Sign, below, same, above, cmp_keys, cmp_keys-flip, memcmp, flip}
use somedb.Index.Page.{
  at, resize, no_key, is_above, is_below, find_slot, insert_last, insert_entries,
}
use somedb.Index.Page.Shift.{
  at-length, put-length, resize-suc, drop_last-append, snoc, length-snoc, length-map, Entry,
  keys_of, values_of, insert_middle-entries,
}

flip_above : (a b : BTreeKey) → cmp_keys a b ≡ above → cmp_keys b a ≢ above
flip_above a b h k = cc (cmp_keys-flip a b)

flip_below : (a b : BTreeKey) → is_below (cmp_keys a b) ≡ false → cmp_keys b a ≢ above
flip_below a b h k =
    let e : cmp_keys a b ≡ below = cmp_keys-flip b a ∙ ap flip k in cc (ap is_below e)

not_above : (a b : BTreeKey) → is_above (cmp_keys a b) ≡ false → cmp_keys a b ≢ above
not_above a b h k = cc (ap is_above k)

resize-of {ℓ} :
    {A : Type ℓ} (d : A) (xs : List A) (n : ℕ) → length xs ≡ n → resize d (n + 1) xs ≡ xs ++ d ∷ []
resize-of d xs n e = rw (← e) (resize-suc d xs)

-- A key with no bytes compares equal to every key.
cmp_keys-no_key : (key : BTreeKey) → cmp_keys key no_key ≡ same
unfolding cmp_keys memcmp
cmp_keys-no_key key = let e : min key.size 0 ≡ 0 = omega arith in rw e

below-above : (s : Sign) → is_above s ≡ true → is_below s ≡ true → ⊥
below-above below h k = cc
below-above same h k = cc
below-above above h k = cc

above_eq : (s : Sign) → is_above s ≡ true → s ≡ above
above_eq below h = cc
above_eq same h = cc
above_eq above h = refl

module _ {ℓ} {V : Type ℓ} where
  -- No key is above its neighbour.
  abbrev pub HeadLe : Entry V → List (Entry V) → Type 0
  HeadLe x [] = Unit
  HeadLe x (y ∷ ys) = cmp_keys x.0 y.0 ≢ above

  abbrev pub Sorted : List (Entry V) → Type 0
  Sorted [] = Unit
  Sorted (x ∷ xs) = HeadLe x xs × Sorted xs

  abbrev pub last : Entry V → List (Entry V) → Entry V
  last x [] = x
  last x (y ∷ ys) = last y ys

  Sorted-middle :
      (front : List (Entry V)) (a e b : Entry V) (back : List (Entry V))
      → Sorted (front ++ a ∷ b ∷ back)
      → cmp_keys a.0 e.0 ≢ above
      → cmp_keys e.0 b.0 ≢ above
      → Sorted (front ++ a ∷ e ∷ b ∷ back)
  Sorted-middle [] a e b back h p q = (p, (q, h.1))
  Sorted-middle (c ∷ []) a e b back h p q = (h.0, (p, (q, h.1.1)))
  Sorted-middle (c ∷ d ∷ front) a e b back h p q =
      (h.0, Sorted-middle (d ∷ front) a e b back h.1 p q)

  Sorted-end :
      (x : Entry V) (xs : List (Entry V)) (e : Entry V)
      → Sorted (x ∷ xs)
      → cmp_keys (last x xs).0 e.0 ≢ above
      → Sorted (x ∷ (xs ++ e ∷ []))
  Sorted-end x [] e h p = (p, (tt, tt))
  Sorted-end x (y ∷ ys) e h p = (h.0, Sorted-end y ys e h.1 p)

  -- `insertIntoNode` on the entries `es` leaves them with the new one put in at one place, and
  -- sorted entries stay sorted.
  pub record Inserted (es : List (Entry V)) (key : BTreeKey) (val : V)
      (result : Option (List BTreeKey × List V)) : Type ℓ where
    pub front : List (Entry V)
    pub back : List (Entry V)
    pub split : es ≡ front ++ back
    pub stored :
        result ≡ some (keys_of (front ++ (key, val) ∷ back), values_of (front ++ (key, val) ∷ back))
    pub sorted : Sorted es → Sorted (front ++ (key, val) ∷ back)

  at-curr :
      (front : List (Entry V)) (x : Entry V) (more : List (Entry V)) (dk : BTreeKey)
      → at (keys_of (front ++ x ∷ more) ++ dk ∷ []) (length front) ≡ some x.0
  at-curr front x more dk =
      let e : keys_of (front ++ x ∷ more) ++ dk ∷ []
          ≡ keys_of front ++ x.0 ∷ (keys_of more ++ dk ∷ []) =
        simp (map-append, append_assoc) in
      rw e (
        at-length (length front) (keys_of front) x.0 (keys_of more ++ dk ∷ [])
          (sym (length-map (λ (e : Entry V). e.0) front)))

  at-next :
      (front : List (Entry V)) (x y : Entry V) (ys : List (Entry V)) (dk : BTreeKey)
      → at (keys_of (front ++ x ∷ y ∷ ys) ++ dk ∷ []) (length front + 1) ≡ some y.0
  at-next front x y ys dk =
      rw (snoc front x (y ∷ ys), ← length-snoc front x) (at-curr (front ++ x ∷ []) y ys dk)

  find_slot-Inserted :
      (n size : ℕ) (front : List (Entry V)) (x : Entry V) (more : List (Entry V)) (dk : BTreeKey)
      (dv : V) (key : BTreeKey) (val : V)
      → size ≡ length front + 1 + length more
      → n ≡ suc (length more)
      → is_above (cmp_keys key x.0) ≡ true
      → is_below (cmp_keys key (last x more).0) ≡ true
      → Inserted (front ++ x ∷ more) key val (
          find_slot n size
            (length front)
            (keys_of (front ++ x ∷ more) ++ dk ∷ [])
            (values_of (front ++ x ∷ more) ++ dv ∷ [])
            key
            val)
  unfolding find_slot
  find_slot-Inserted zero size front x more dk dv key val hs hn hx hl = absurd (omega arith)
  find_slot-Inserted (suc n) size front x [] dk dv key val hs hn hx hl =
      absurd (below-above (cmp_keys key x.0) hx hl)
  find_slot-Inserted (suc n) size front x (y ∷ ys) dk dv key val hs hn hx hl =
      elim (Bool-cases (is_above (cmp_keys key y.0))) [
        | inl e ↦
            rw (at-curr front x (y ∷ ys) dk, at-next front x y ys dk, hx, e)
              (rw (snoc front x (y ∷ ys), ← length-snoc front x)
                (find_slot-Inserted n size (front ++ x ∷ []) y ys dk dv key val
                  (omega (arith, length-snoc front x)) (omega arith) e hl))
        | inr e ↦
            rw (at-curr front x (y ∷ ys) dk, at-next front x y ys dk, hx, e)
              (record {
                front = front ++ x ∷ [];
                back = y ∷ ys;
                split = snoc front x (y ∷ ys);
                stored =
                    rw (← snoc front x ((key, val) ∷ y ∷ ys))
                      (insert_middle-entries size front x y ys dk dv key val (omega arith));
                sorted = λ s. rw (← snoc front x ((key, val) ∷ y ∷ ys)) (
                    Sorted-middle front x (key, val) y ys s
                      (flip_above key x.0 (above_eq (cmp_keys key x.0) hx)) (not_above key y.0 e));
              })
      ]

  at-last :
      (front : List (Entry V)) (x : Entry V) (xs : List (Entry V)) (dk : BTreeKey)
      → at (keys_of (front ++ x ∷ xs) ++ dk ∷ []) (length front + length xs) ≡ some (last x xs).0
  at-last front x [] dk =
      let e : length front + 0 ≡ length front = omega arith in rw e (at-curr front x [] dk)
  at-last front x (y ∷ ys) dk =
      let e : length front + suc (length ys) ≡ length (front ++ x ∷ []) + length ys =
        omega (arith, length-snoc front x) in
      rw (snoc front x (y ∷ ys), e) (at-last (front ++ x ∷ []) y ys dk)

  insert_last-Inserted :
      (es : List (Entry V)) (dk : BTreeKey) (dv : V) (key : BTreeKey) (val : V)
      → (Sorted es → Sorted (es ++ (key, val) ∷ []))
      → Inserted es key val (insert_last (keys_of es ++ dk ∷ []) (values_of es ++ dv ∷ []) key val)
  unfolding insert_last
  insert_last-Inserted es dk dv key val keep =
      let lk : length (keys_of es ++ dk ∷ []) - 1 ≡ length (keys_of es) =
        omega (arith, length-snoc (keys_of es) dk) in
      let lv : length (values_of es ++ dv ∷ []) - 1 ≡ length (values_of es) =
        omega (arith, length-snoc (values_of es) dv) in
      record {
        front = es;
        back = [];
        split = sym (append-nil es);
        stored =
            rw
              (
                put-length (length (keys_of es ++ dk ∷ []) - 1) (keys_of es) dk key [] lk,
                put-length (length (values_of es ++ dv ∷ []) - 1) (values_of es) dv val [] lv,
              )
              (simp map-append);
        sorted = keep;
      }

  insert_entries-empty :
      (no_value : V) (key : BTreeKey) (val : V)
      → Inserted [] key val (insert_entries no_value [] [] key val)
  unfolding insert_entries resize
  insert_entries-empty no_value key val =
      rw (cmp_keys-no_key key) (insert_last-Inserted [] no_key no_value key val (λ _. (tt, tt)))

  -- The three cases of `insertIntoNode`, and the empty node.
  pub insert_entries-Inserted :
      (no_value : V) (es : List (Entry V)) (key : BTreeKey) (val : V)
      → length es < 65535
      → Inserted es key val (insert_entries no_value (keys_of es) (values_of es) key val)
  unfolding insert_entries
  insert_entries-Inserted no_value [] key val h = insert_entries-empty no_value key val
  insert_entries-Inserted no_value (x ∷ xs) key val h =
      let es = x ∷ xs in
      let lk = length-map (λ (e : Entry V). e.0) es in
      let lv = length-map (λ (e : Entry V). e.1) es in
      let n = length (keys_of es) % 2 ^ 16 in
      let size : n ≡ suc (length xs) = omega arith in
      let grown = resize-of no_key (keys_of es) n (omega arith) in
      let grown' = resize-of no_value (values_of es) n (omega arith) in
      let index : suc (length xs) - 1 ≡ 0 + length xs = omega arith in
      rw (grown, grown', size, index, at-last [] x xs no_key)
        (elim (Bool-cases (is_below (cmp_keys key (last x xs).0))) [
          | inr e ↦ rw e (
              insert_last-Inserted es no_key no_value key val
                λ s. Sorted-end x xs (key, val) s (flip_below key (last x xs).0 e))
          | inl e ↦ elim (Bool-cases (is_above (cmp_keys key x.0))) [
            | inl f ↦
                rw (e, f)
                  (find_slot-Inserted (suc (length xs)) (suc (length xs)) [] x xs no_key no_value
                    key val (omega arith) refl f e)
            | inr f ↦
                rw (e, f)
                  (record {
                    front = [];
                    back = es;
                    split = refl;
                    stored = rw (
                      drop_last-append (keys_of es) no_key,
                      drop_last-append (values_of es) no_value,
                    );
                    sorted = λ s. (not_above key x.0 f, s);
                  })
          ]
        ])
