-- ===== src/Utils/Hash/Remove.antt =====
-- src/utils/hash.c: what `hash_remove` does to the table.
use somedb.Base.Int.{ℤ}
use somedb.Base.{
  ℕ, zero, suc, ◌<◌, ◌≡◌, refl, sym, ap, ◌∙◌, true, false, none, some, List, [], ◌∷◌, if◌then◌else◌,
  arith, map, length, get_elem?, set,
}
use somedb.Sql.Token.{Text, text_eq}
use somedb.Utils.Hash.{
  HashEl, HashTable, hash, hash_find, hash_remove, find_chain, remove_chain, remove_first,
}
use somedb.Utils.Hash.Chain.{
  chain_of, lookup, erase, has_key, Distinct, remove_next-erase, lookup-erase, text_eq_refl,
}
use somedb.Utils.Hash.Refine.{
  Chains, table_of, get_elem?-set, length-set, get_elem?-chain_of, set-chain_of, hash_find-lookup,
  hash_size, if_some,
}

pub index-lt {ℓ} :
    {A : Type ℓ} (xs : List A) (i : ℕ) (x : A) → get_elem? xs i ≡ some x → i < length xs
index-lt [] i x h = cc
index-lt (y ∷ xs) zero x h = omega arith
index-lt (y ∷ xs) (suc i) x h = omega (arith, index-lt xs i x h)

module _ {ℓ} {V : Type ℓ} (atoi : Text → ℤ) where
  pub hash_arr :
      (key : Text) (a b : List (List (HashEl V))) (n : ℕ)
      → hash atoi key (record { arr = a; size = n }) ≡ hash atoi key (record { arr = b; size = n })
  unfolding hash
  hash_arr key a b n = refl

  -- Behind the first element of a chain whose keys are all different, `hash_remove` takes the key
  -- out: it returns the table with no key freed, says whether the key was there, and `hash_find`
  -- has nothing for the key, and what it had for every other key of the chain.
  pub hash_find-hash_remove :
      (key other : Text) (cs : Chains V) (i : ℕ) (e : Text × V) (es : List (Text × V))
      → hash atoi key (table_of cs) ≡ some i
      → hash atoi other (table_of cs) ≡ some i
      → get_elem? cs i ≡ some (e ∷ es)
      → Distinct (e ∷ es)
      → text_eq e.0 key ≡ false
      → (after : Chains V) × (hash_remove atoi key (table_of cs)
          ≡ some (table_of after, has_key key es))
        × (hash_find atoi other (table_of after)
            ≡ (if text_eq key other then some none else hash_find atoi other (table_of cs)))
  unfolding hash_remove remove_chain
  hash_find-hash_remove key other cs i e es hk ho g d first =
      let chain = get_elem?-chain_of cs i (e ∷ es) g in
      let new = e ∷ erase key es in
      let after = set cs i new in
      let same = length-set cs i new in
      let there = get_elem?-set cs i new (index-lt cs i (e ∷ es) g) in
      let erased : erase key (e ∷ es) ≡ new = rw first in
      let gone : lookup other new ≡ (if text_eq key other then none else lookup other (e ∷ es)) =
        ap (lookup other) (sym erased) ∙ lookup-erase key other (e ∷ es) d in
      (
        after,
        rw (hk, chain, first, remove_next-erase key es, set-chain_of cs i new, ← same),
        rw
            (
              hash_find-lookup atoi other after i new (hash_size atoi other after cs same ∙ ho)
                  there,
              gone,
              hash_find-lookup atoi other cs i (e ∷ es) ho g,
            )
            (if_some (text_eq key other) none (lookup other (e ∷ es))),
      )

  -- The removal of the first element of a chain of two or more reports success, and leaves a table
  -- where `hash_find` of any key of that chain reads a freed key.
  hash_find-hash_remove_first :
      (key other : Text) (val : V) (cs : Chains V) (i : ℕ) (next : Text × V)
      (more : List (Text × V))
      → hash atoi key (table_of cs) ≡ some i
      → hash atoi other (table_of cs) ≡ some i
      → get_elem? cs i ≡ some ((key, val) ∷ next ∷ more)
      → (after : HashTable V) × (hash_remove atoi key (table_of cs) ≡ some (after, true))
        × (hash_find atoi other after ≡ none)
  unfolding hash_remove remove_chain remove_first hash_find find_chain
  hash_find-hash_remove_first key other val cs i next more hk ho g =
      let es = (key, val) ∷ next ∷ more in
      let chain = get_elem?-chain_of cs i es g in
      let freed = remove_first (chain_of (next ∷ more)) in
      let arr' = set (map chain_of cs) i freed in
      let there =
        get_elem?-set (map chain_of cs) i freed
          (index-lt (map chain_of cs) i (chain_of es) chain) in
      let at_i : hash atoi other (record { arr = arr'; size = length cs }) ≡ some i =
        hash_arr other arr' (map chain_of cs) (length cs) ∙ ho in
      (record { arr = arr'; size = length cs }, rw (hk, chain, text_eq_refl key), rw (at_i, there))
