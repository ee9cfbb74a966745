-- ===== src/Utils/Tests.antt =====
-- Words in and out of a buffer, a small hash table, and a small circular list.
use somedb.Base.{if◌then◌else◌, arith}
use somedb.Utils.CircularList.{CircularList}
use somedb.Utils.CircularList.Laws.{WellFormed}
use somedb.Base.{refl}
use somedb.Base.Int.{pos}
use somedb.Base.Int.{ℤ}
use somedb.Base.{ℕ, ◌-◌, some, none, List, [], ◌∷◌, length, if◌then◌else◌}
use somedb.Sql.Token.{Text, text_eq}
use somedb.Utils.Hash.{hash, hash_insert, hash_find, hash_remove}
use somedb.Utils.Hash.Chain.{has_key}
use somedb.Utils.Hash.Refine.{Chains, table_of, hash_find-hash_insert}
use somedb.Utils.Hash.Remove.{hash_find-hash_remove}
use somedb.Base.{◌≡◌, arith}

-- A key of one digit, as `atoi` reads it.
abbrev digit : Text → ℤ
digit [] = pos 0
digit (c ∷ s) = pos (c - 48)

abbrev behind_first : List (Text × ℕ)
behind_first = (51 ∷ [], 30) ∷ (53 ∷ [], 50) ∷ []

-- Keys "1", "3" and "5" in one chain of a table of two.
abbrev odd_chains : Chains ℕ
odd_chains = [] ∷ ((49 ∷ [], 10) ∷ (51 ∷ [], 30) ∷ (53 ∷ [], 50) ∷ []) ∷ []

hash-odd_three : hash digit (51 ∷ []) (table_of odd_chains) ≡ some 1
unfolding hash
hash-odd_three = refl

hash-odd_one : hash digit (49 ∷ []) (table_of odd_chains) ≡ some 1
unfolding hash
hash-odd_one = refl

hash_find-hash_insert_example :
    (after : Chains ℕ) × (hash_insert digit (some (51 ∷ [])) (some 7) (table_of odd_chains)
      ≡ some (table_of after))
    × (length after ≡ length odd_chains)
    × (hash_find digit (49 ∷ []) (table_of after) ≡ (
        if text_eq (51 ∷ []) (49 ∷ [])
        then some (some 7)
        else hash_find digit (49 ∷ []) (table_of odd_chains)))
hash_find-hash_insert_example =
    hash_find-hash_insert digit (51 ∷ []) (49 ∷ []) 7 odd_chains (3, refl) (1, refl) (omega arith)

hash_find-hash_remove_example :
    (after : Chains ℕ) × (hash_remove digit (51 ∷ []) (table_of odd_chains)
      ≡ some (table_of after, has_key (51 ∷ []) behind_first))
    × (hash_find digit (49 ∷ []) (table_of after) ≡ (
        if text_eq (51 ∷ []) (49 ∷ [])
        then some none
        else hash_find digit (49 ∷ []) (table_of odd_chains)))
unfolding text_eq
hash_find-hash_remove_example =
    hash_find-hash_remove digit (51 ∷ []) (49 ∷ []) odd_chains 1 (49 ∷ [], 10)
      ((51 ∷ [], 30) ∷ (53 ∷ [], 50) ∷ []) hash-odd_three hash-odd_one refl
      (refl, (refl, (refl, tt))) refl

abbrev two_nodes : CircularList
two_nodes = record { capacity = 3; size = 2; nodes = (49 ∷ []) ∷ (50 ∷ []) ∷ [] }

two_nodes-WellFormed : WellFormed two_nodes
two_nodes-WellFormed = record { counts = refl; bounded = omega arith }
