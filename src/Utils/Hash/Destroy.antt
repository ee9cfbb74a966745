-- ===== src/Utils/Hash/Destroy.antt =====
-- src/utils/hash.c: what `destroy_hash` frees.
use somedb.Base.{ℕ, ◌+◌, ◌*◌, ◌≤◌, List, [], ◌∷◌, map, length, length-append, arith}
use somedb.Sql.Token.{Text}
use somedb.Utils.Hash.{freed_of, destroy_hash}
use somedb.Utils.Hash.Chain.{chain_of}
use somedb.Utils.Hash.Refine.{Chains}

module _ {V : Type 0} where
  -- The elements of a table.
  abbrev entries : Chains V → ℕ
  entries [] = 0
  entries (es ∷ cs) = length es + entries cs

  freed_of-half : (es : List (Text × V)) → length (freed_of (chain_of es)) * 2 ≤ length es
  unfolding freed_of
  freed_of-half [] = omega arith
  freed_of-half (e ∷ []) = omega arith
  freed_of-half (e ∷ f ∷ es) = omega (arith, freed_of-half es)

  -- In a table without freed keys, destroy_hash frees at most every second element, although all but
  -- the first of each chain are allocated.
  destroy_hash-half : (cs : Chains V) → length (destroy_hash (map chain_of cs)) * 2 ≤ entries cs
  unfolding destroy_hash
  destroy_hash-half [] = omega arith
  destroy_hash-half (es ∷ cs) = omega (
    arith,
    length-append (freed_of (chain_of es)) (destroy_hash (map chain_of cs)),
    freed_of-half es,
    destroy_hash-half cs,
  )
