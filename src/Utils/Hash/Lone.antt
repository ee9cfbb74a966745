-- ===== src/Utils/Hash/Lone.antt =====
-- src/utils/hash.c: the operations on a chain that holds one key, or none.
use somedb.Base.{ℕ, ◌≡◌, ◌∙◌, true, none, some, List, [], ◌∷◌, set, get_elem?}
use somedb.Base.Int.{ℤ}
use somedb.Sql.Token.{Text}
use somedb.Utils.Hash.{
  HashEl, HashTable, live, hash, hash_find, hash_insert, hash_remove, insert_chain, find_chain,
  remove_chain, remove_first,
}
use somedb.Utils.Hash.Chain.{text_eq_refl}
use somedb.Utils.Hash.Refine.{get_elem?-set}
use somedb.Utils.Hash.Remove.{hash_arr, index-lt}

module _ (atoi : Text → ℤ) {V : Type 0} where
  -- The chain that a key leads to.
  pub record HasChain (table : HashTable V) (key : Text) (idx : ℕ) (chain : List (HashEl V))
      : Type 0 where
    pub hashed : hash atoi key table ≡ some idx
    pub there : get_elem? table.arr idx ≡ some chain

  pub set-HasChain :
      (table : HashTable V) (key : Text) (idx : ℕ) (chain chain' : List (HashEl V))
      → HasChain table key idx chain
      → HasChain (record table { arr = set table.arr idx chain' }) key idx chain'
  set-HasChain table key idx chain chain' h = record {
    hashed = hash_arr atoi key (set table.arr idx chain') table.arr table.size ∙ h.hashed;
    there = get_elem?-set table.arr idx chain' (index-lt table.arr idx chain h.there);
  }

  pub hash_insert-empty :
      (table : HashTable V) (key : Text) (idx : ℕ) (val : V)
      → HasChain table key idx []
      → hash_insert atoi (some key) (some val) table
        ≡ some (record table { arr = set table.arr idx (live key val ∷ []) })
  unfolding hash_insert insert_chain
  hash_insert-empty table key idx val h = rw (h.hashed, h.there)

  pub hash_insert-same :
      (table : HashTable V) (key : Text) (idx : ℕ) (val val' : V)
      → HasChain table key idx (live key val ∷ [])
      → hash_insert atoi (some key) (some val') table
        ≡ some (record table { arr = set table.arr idx (live key val' ∷ []) })
  unfolding hash_insert insert_chain
  hash_insert-same table key idx val val' h = rw (h.hashed, h.there, text_eq_refl key)

  pub hash_find-empty :
      (table : HashTable V) (key : Text) (idx : ℕ)
      → HasChain table key idx []
      → hash_find atoi key table ≡ some none
  unfolding hash_find find_chain
  hash_find-empty table key idx h = rw (h.hashed, h.there)

  pub hash_find-lone :
      (table : HashTable V) (key : Text) (idx : ℕ) (val : V)
      → HasChain table key idx (live key val ∷ [])
      → hash_find atoi key table ≡ some (some val)
  unfolding hash_find find_chain
  hash_find-lone table key idx val h = rw (h.hashed, h.there, text_eq_refl key)

  pub hash_remove-lone :
      (table : HashTable V) (key : Text) (idx : ℕ) (val : V)
      → HasChain table key idx (live key val ∷ [])
      → hash_remove atoi key table ≡ some (record table { arr = set table.arr idx [] }, true)
  unfolding hash_remove remove_chain remove_first
  hash_remove-lone table key idx val h = rw (h.hashed, h.there, text_eq_refl key)

  pub hash_remove-empty :
      (table : HashTable V) (key : Text) (idx : ℕ)
      → HasChain table key idx []
      → hash_remove atoi key table ≡ some (record table { arr = set table.arr idx [] }, true)
  unfolding hash_remove remove_chain
  hash_remove-empty table key idx h = rw (h.hashed, h.there)
