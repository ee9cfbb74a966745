-- ===== src/Utils/Hash/Refine.antt =====
-- src/utils/hash.c: the table as a map from keys to values.
use somedb.Base.Int.{ℤ, pos}
use somedb.Base.{
  ℕ, zero, suc, ◌%◌, ◌<◌, ◌≡◌, ◌≢◌, refl, sym, ap, ◌∙◌, subst, ◌==◌, ==_iff, Bool, true, false,
  some, List, [], ◌∷◌, if◌then◌else◌, Bool-cases, inl, inr, arith, map, length, get_elem?,
  get_elem?_inside, set,
}
use native.Mathlib.Nat.{mod-lt}
use somedb.Sql.Token.{Text, text_eq}
use somedb.Utils.Hash.{HashEl, HashTable, hash, hash_insert, hash_find}
use somedb.Utils.Hash.Chain.{
  chain_of, lookup, insert, find_chain-lookup, insert_chain-insert, lookup-insert, text_eq_sound,
}

module _ {ℓ} {A : Type ℓ} where
  pub get_elem?-set :
      (xs : List A) (i : ℕ) (v : A) → i < length xs → get_elem? (set xs i v) i ≡ some v
  get_elem?-set [] i v h = absurd (omega arith)
  get_elem?-set (x ∷ xs) zero v h = refl
  get_elem?-set (x ∷ xs) (suc i) v h = get_elem?-set xs i v (omega arith)

  pub get_elem?-set_ne :
      (xs : List A) (i j : ℕ) (v : A) → i ≢ j → get_elem? (set xs i v) j ≡ get_elem? xs j
  get_elem?-set_ne [] i j v h = refl
  get_elem?-set_ne (x ∷ xs) zero zero v h = absurd (h refl)
  get_elem?-set_ne (x ∷ xs) zero (suc j) v h = refl
  get_elem?-set_ne (x ∷ xs) (suc i) zero v h = refl
  get_elem?-set_ne (x ∷ xs) (suc i) (suc j) v h = get_elem?-set_ne xs i j v (λ e. h (ap suc e))

  pub length-set : (xs : List A) (i : ℕ) (v : A) → length (set xs i v) ≡ length xs
  length-set [] i v = refl
  length-set (x ∷ xs) zero v = refl
  length-set (x ∷ xs) (suc i) v = ap suc (length-set xs i v)

pub if_some {ℓ} :
    {A : Type ℓ} (b : Bool) (x y : A) → some (if b then x else y) ≡ (if b then some x else some y)
if_some true x y = refl
if_some false x y = refl

abbrev pub Chains {ℓ} : Type ℓ → Type ℓ
Chains V = List (List (Text × V))

-- A key that reads as a number that is not negative.
abbrev pub IsIndex : (Text → ℤ) → Text → Type 0
IsIndex atoi key = (n : ℕ) × (atoi key ≡ pos n)

module _ {ℓ} {V : Type ℓ} where
  pub get_elem?-chain_of :
      (cs : Chains V) (i : ℕ) (es : List (Text × V))
      → get_elem? cs i ≡ some es
      → get_elem? (map chain_of cs) i ≡ some (chain_of es)
  get_elem?-chain_of [] i es h = cc
  get_elem?-chain_of (c ∷ cs) zero es h = let e : c ≡ es = cc in ap (λ t. some (chain_of t)) e
  get_elem?-chain_of (c ∷ cs) (suc i) es h = get_elem?-chain_of cs i es h

  pub set-chain_of :
      (cs : Chains V) (i : ℕ) (es : List (Text × V))
      → set (map chain_of cs) i (chain_of es) ≡ map chain_of (set cs i es)
  set-chain_of [] i es = refl
  set-chain_of (c ∷ cs) zero es = refl
  set-chain_of (c ∷ cs) (suc i) es =
      ap (λ (t : List (List (HashEl V))). chain_of c ∷ t) (set-chain_of cs i es)

  -- A table with these chains, none of whose keys is freed.
  abbrev pub table_of : Chains V → HashTable V
  table_of cs = record { arr = map chain_of cs; size = length cs }

  module _ (atoi : Text → ℤ) where
    hash-lt :
        (key : Text) (cs : Chains V)
        → IsIndex atoi key
        → 0 < length cs
        → (i : ℕ) × (hash atoi key (table_of cs) ≡ some i) × (i < length cs)
    unfolding hash
    hash-lt key cs (n, e) h =
        let nonzero : (length cs == 0) ≡ false = ground (arith, h) in
        (n % length cs, rw (e, nonzero), mod-lt n h)

    pub hash_find-lookup :
        (key : Text) (cs : Chains V) (i : ℕ) (es : List (Text × V))
        → hash atoi key (table_of cs) ≡ some i
        → get_elem? cs i ≡ some es
        → hash_find atoi key (table_of cs) ≡ some (lookup key es)
    unfolding hash_find
    hash_find-lookup key cs i es h g =
        let chain = get_elem?-chain_of cs i es g in rw (h, chain, find_chain-lookup key es)

    pub hash_size :
        (key : Text) (cs ds : Chains V)
        → length cs ≡ length ds
        → hash atoi key (table_of cs) ≡ hash atoi key (table_of ds)
    unfolding hash
    hash_size key cs ds e = λ i. hash atoi key (record { arr = map chain_of cs; size = e i })

    -- In a table of at least one chain that holds no freed key, and for keys that read as numbers
    -- that are not negative: `hash_insert` returns such a table of the same size, in which
    -- `hash_find` has the new value for the key, and what it had for every other key.
    pub hash_find-hash_insert :
        (key other : Text) (val : V) (cs : Chains V)
        → IsIndex atoi key
        → IsIndex atoi other
        → 0 < length cs
        → (after : Chains V) × (hash_insert atoi (some key) (some val) (table_of cs)
            ≡ some (table_of after))
          × (length after ≡ length cs)
          × (hash_find atoi other (table_of after)
              ≡ (if text_eq key other then some (some val) else hash_find atoi other (table_of cs)))
    unfolding hash_insert
    hash_find-hash_insert key other val cs hk ho h =
        let (i, at_i, lt_i) = hash-lt key cs hk h in
        let (es, has_i) = get_elem?_inside cs i lt_i in
        let chain = get_elem?-chain_of cs i es has_i in
        let new = insert key val es in
        let after = set cs i new in
        let same = length-set cs i new in
        let (j, at_j, lt_j) = hash-lt other cs ho h in
        let (fs, has_j) = get_elem?_inside cs j lt_j in
        let at_j' : hash atoi other (table_of after) ≡ some j =
          hash_size other after cs same ∙ at_j in
        let old = hash_find-lookup other cs j fs at_j has_j in
        (
          after,
          rw (at_i, chain, insert_chain-insert key val es, set-chain_of cs i new, ← same),
          same,
          elim (Bool-cases (i == j)) [
            | inl e ↦
                let there : get_elem? after j ≡ some new =
                  subst (λ n. get_elem? after n ≡ some new) ((==_iff i j).0 e)
                    (get_elem?-set cs i new lt_i) in
                let one : get_elem? cs j ≡ some es =
                  subst (λ n. get_elem? cs n ≡ some es) ((==_iff i j).0 e) has_i in
                rw
                  (
                    hash_find-lookup other after j new at_j' there,
                    lookup-insert key val es other,
                    hash_find-lookup other cs j es at_j one,
                  )
                  (if_some (text_eq key other) (some val) (lookup other es))
            | inr e ↦
                let apart : i ≢ j = λ p. ground (arith, p, e) in
                let there : get_elem? after j ≡ some fs =
                  get_elem?-set_ne cs i j new apart ∙ has_j in
                elim (Bool-cases (text_eq key other)) [
                  | inr n ↦ rw n (hash_find-lookup other after j fs at_j' there ∙ sym old)
                  | inl y ↦
                      let k = text_eq_sound key other y in
                      let ij : some i ≡ some j =
                        sym at_i ∙ ap (λ t. hash atoi t (table_of cs)) k ∙ at_j in
                      let p : i ≡ j = cc in absurd (apart p)
                ]
          ],
        )
