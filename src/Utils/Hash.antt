-- ===== src/Utils/Hash.antt =====
-- src/utils/hash.c: a table of chains.
-- A chain is the list of the elements from `arr + idx` on; the empty one is an element of the array
-- whose key is NULL. A key that was freed is `none`, and to read it is undefined, as is an index
-- outside the array: then the operation returns `none`. The latch of the table is not modelled.
-- `atoi` belongs to the C library.
pub mod Chain
pub mod Refine
pub mod Remove
pub mod Lone
pub mod Destroy
use somedb.Base.Int.{ℤ, pos, negsuc}
use somedb.Base.{
  ℕ, zero, suc, ◌+◌, ◌-◌, ◌%◌, ◌^◌, ◌==◌, Bool, true, false, Option, none, some, List, [], ◌∷◌,
  ◌++◌, get_elem?, set, if◌then◌else◌,
}
use somedb.Sql.Token.{Text, text_eq}

pub record HashEl {ℓ} (V : Type ℓ) : Type ℓ where
  pub key : Option Text
  pub data_ : V

pub record HashTable {ℓ} (V : Type ℓ) : Type ℓ where
  pub arr : List (List (HashEl V))
  pub size : ℕ

infixl 5 ◌>>=◌
abbrev pub ◌>>=◌ {ℓ κ} : {A : Type ℓ} {B : Type κ} → Option A → (A → Option B) → Option B
none >>= f = none
some a >>= f = f a

abbrev pub empty_chains {ℓ} : {V : Type ℓ} → ℕ → List (List (HashEl V))
empty_chains zero = []
empty_chains (suc n) = [] ∷ empty_chains n

-- The size is stored into 16 bits; the array has all elements asked for.
unfoldable pub init_hash {ℓ} : {V : Type ℓ} → ℕ → HashTable V
init_hash size = record { arr = empty_chains size; size = size % 2 ^ 16 }

module _ {ℓ} {V : Type ℓ} where
  abbrev pub live : Text → V → HashEl V
  live key val = record { key = some key; data_ = val }

  -- The loop of `hash_insert`, and the case of a free element.
  unfoldable pub insert_chain : Text → V → List (HashEl V) → Option (List (HashEl V))
  insert_chain key val [] = some (live key val ∷ [])
  insert_chain key val (temp ∷ next) = do
    temp_key ← temp.key
    let rest = (do next' ← insert_chain key val next; some (temp ∷ next'))
    (if text_eq temp_key key then some (live key val ∷ next) else rest)

  -- The loop of `hash_find`.
  unfoldable pub find_chain : Text → List (HashEl V) → Option (Option V)
  find_chain key [] = some none
  find_chain key (temp ∷ next) = do
    temp_key ← temp.key
    let rest = find_chain key next
    (if text_eq temp_key key then some (some temp.data_) else rest)

  -- `hash_remove` behind the first element of a chain.
  unfoldable pub remove_next : Text → List (HashEl V) → Option (List (HashEl V) × Bool)
  remove_next key [] = some ([], false)
  remove_next key (temp ∷ next) = do
    temp_key ← temp.key
    let rest = (do (next', success) ← remove_next key next; some (temp ∷ next', success))
    (if text_eq temp_key key then some (next, true) else rest)

  -- The element behind a removed first one is moved into the array, and then its key is freed.
  unfoldable pub remove_first : List (HashEl V) → List (HashEl V)
  remove_first [] = []
  remove_first (next ∷ more) = record next { key = none } ∷ more

  -- A free element ends the loop like a found one.
  unfoldable pub remove_chain : Text → List (HashEl V) → Option (List (HashEl V) × Bool)
  remove_chain key [] = some ([], true)
  remove_chain key (temp ∷ next) = do
    temp_key ← temp.key
    let rest = (do (next', success) ← remove_next key next; some (temp ∷ next', success))
    (if text_eq temp_key key then some (remove_first next, true) else rest)

  -- The loop of `destroy_hash` over one chain: the elements that it frees. Every step frees the element
  -- behind `curr` and goes on from the one behind that.
  unfoldable pub freed_of : List (HashEl V) → List (HashEl V)
  freed_of [] = []
  freed_of (curr ∷ []) = []
  freed_of (curr ∷ temp ∷ next) = elim curr.key [ none ↦ [] | some key ↦ temp ∷ freed_of next ]

  -- `destroy_hash`, by the elements that it frees besides the array.
  unfoldable pub destroy_hash : List (List (HashEl V)) → List (HashEl V)
  destroy_hash [] = []
  destroy_hash (chain ∷ arr) = freed_of chain ++ destroy_hash arr

module _ {ℓ} {V : Type ℓ} (atoi : Text → ℤ) where
  -- The remainder of a negative number is negative, and wraps in the 16 bits of the result. A
  -- remainder by 0 is undefined.
  unfoldable pub hash : Text → HashTable V → Option ℕ
  hash key ht =
      let idx : ℕ = elim (atoi key) [
        | pos n ↦ n % ht.size
        | negsuc n ↦ (2 ^ 16 - suc n % ht.size) % 2 ^ 16
      ] in
      if ht.size == 0 then none else some idx

  -- A key or data that is NULL is `none`.
  unfoldable pub hash_insert : Option Text → Option V → HashTable V → Option (HashTable V)
  hash_insert none data_ ht = some ht
  hash_insert (some key) none ht = some ht
  hash_insert (some key) (some val) ht = do
    idx ← hash key ht
    chain ← get_elem? ht.arr idx
    chain' ← insert_chain key val chain
    some (record ht { arr = set ht.arr idx chain' })

  unfoldable pub hash_find : Text → HashTable V → Option (Option V)
  hash_find key ht = do idx ← hash key ht; chain ← get_elem? ht.arr idx; find_chain key chain

  unfoldable pub hash_remove : Text → HashTable V → Option (HashTable V × Bool)
  hash_remove key ht = do
    idx ← hash key ht
    chain ← get_elem? ht.arr idx
    (chain', success) ← remove_chain key chain
    some (record ht { arr = set ht.arr idx chain' }, success)
