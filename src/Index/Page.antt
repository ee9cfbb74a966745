-- ===== src/Index/Page.antt =====
-- include/index/index_page.hpp and src/index/index_page.cpp: the nodes of the B+tree.
pub mod Shift
pub mod Insert
pub mod Halves
use somedb.Base.{
  ℕ, zero, suc, ◌+◌, ◌-◌, ◌/◌, ◌%◌, ◌^◌, ◌==◌, ltb, Bool, true, false, ◌&&◌, Option, none, some,
  List, [], ◌∷◌, ◌++◌, length, get_elem?, set, take, drop, if◌then◌else◌,
}
use somedb.Index.Key.{BTreeKey, Sign, below, same, above, cmp_keys}

pub record Rid : Type 0 where
  pub pid : ℕ
  pub slot_num : ℕ

-- `std::variant<std::vector<RID>, std::vector<u32>>`
pub data Values : Type 0 where
  records : List Rid → Values
  children : List ℕ → Values

pub record BTreePage : Type 0 where
  pub is_leaf : Bool
  pub keys : List BTreeKey
  pub flags : ℕ
  pub rightmost_ptr : ℕ
  pub next : ℕ
  pub values : Values

infixl 5 ◌>>=◌
abbrev pub ◌>>=◌ {ℓ κ} : {A : Type ℓ} {B : Type κ} → Option A → (A → Option B) → Option B
none >>= f = none
some a >>= f = f a

-- `none` is an exception: `std::out_of_range`, or `std::bad_variant_access`.
abbrev pub at {ℓ} : {A : Type ℓ} → List A → ℕ → Option A
at xs i = get_elem? xs i

-- `xs.at(i) = v`
unfoldable pub put {ℓ} : {A : Type ℓ} → List A → ℕ → A → Option (List A)
put xs i v = if ltb i (length xs) then some (set xs i v) else none

-- `xs.resize(n)`
unfoldable pub resize {ℓ} : {A : Type ℓ} → A → ℕ → List A → List A
resize d zero xs = []
resize d (suc n) [] = d ∷ resize d n []
resize d (suc n) (x ∷ xs) = x ∷ resize d n xs

-- The range from `begin()` to `end() - 1`.
unfoldable pub drop_last {ℓ} : {A : Type ℓ} → List A → List A
drop_last xs = take (length xs - 1) xs

-- `vec_first_half`, `vec_second_half`
unfoldable pub vec_first_half {ℓ} : {A : Type ℓ} → List A → Bool → List A
vec_first_half xs include_mid = take (length xs / 2 + (if include_mid then 1 else 0)) xs

unfoldable pub vec_second_half {ℓ} : {A : Type ℓ} → List A → Bool → List A
vec_second_half xs include_mid = drop (length xs / 2 + (if include_mid then 0 else 1)) xs

-- A key that `resize` makes: no bytes.
abbrev pub no_key : BTreeKey
no_key = record { bytes = []; size = 0 }

abbrev pub is_above : Sign → Bool
is_above above = true
is_above _ = false

abbrev pub is_below : Sign → Bool
is_below below = true
is_below _ = false

module _ {ℓ} {V : Type ℓ} where
  -- `for (int j = i; j < size - 1; j++)`, by the rounds that are left.
  unfoldable pub shift_right :
      ℕ → ℕ → List BTreeKey → List V → BTreeKey → V → Option (List BTreeKey × List V)
  shift_right zero j keys values prev_key prev_value = some (keys, values)
  shift_right (suc n) j keys values prev_key prev_value = do
    temp_key ← at keys (j + 2)
    temp_val ← at values (j + 2)
    keys' ← put keys (j + 2) prev_key
    values' ← put values (j + 2) prev_value
    shift_right n (j + 1) keys' values' temp_key temp_val

  unfoldable pub insert_middle :
      ℕ → ℕ → List BTreeKey → List V → BTreeKey → V → Option (List BTreeKey × List V)
  insert_middle size i keys values key val = do
    prev_key ← at keys (i + 1)
    prev_value ← at values (i + 1)
    keys' ← put keys (i + 1) key
    values' ← put values (i + 1) val
    shift_right (size - 1 - i) i keys' values' prev_key prev_value

  -- `for (uint16_t i = 0; i < size; i++)`, by the rounds that are left.
  unfoldable pub find_slot :
      ℕ → ℕ → ℕ → List BTreeKey → List V → BTreeKey → V → Option (List BTreeKey × List V)
  find_slot zero size i keys values key val = some (keys, values)
  find_slot (suc n) size i keys values key val = do
    curr_key ← at keys i
    next_key ← at keys (i + 1)
    let rest = find_slot n size (i + 1) keys values key val
    (if is_above (cmp_keys key curr_key)
        then (if is_above (cmp_keys key next_key)
            then rest
            else insert_middle size i keys values key val)
        else rest)

  unfoldable pub insert_last :
      List BTreeKey → List V → BTreeKey → V → Option (List BTreeKey × List V)
  insert_last keys values key val = do
    keys' ← put keys (length keys - 1) key
    values' ← put values (length values - 1) val
    some (keys', values')

  -- `insertIntoNode`; `no_value` is the value that `resize` makes, `RID()` or 0.
  unfoldable pub insert_entries :
      V → List BTreeKey → List V → BTreeKey → V → Option (List BTreeKey × List V)
  insert_entries no_value old_keys old_values key val = do
    let size = length old_keys % 2 ^ 16
    let keys = resize no_key (size + 1) old_keys
    let values = resize no_value (size + 1) old_values
    first_key ← at keys 0
    last_key ← at keys (size - 1)
    (if is_below (cmp_keys key last_key)
        then (if is_above (cmp_keys key first_key)
            then find_slot size size 0 keys values key val
            else some (key ∷ drop_last keys, val ∷ drop_last values))
        else insert_last keys values key val)

unfoldable pub insert_record : BTreePage → BTreeKey → Rid → Option BTreePage
insert_record page key val = elim page.values [
  | children _ ↦ none
  | records rs ↦ do
    (keys, rs') ← insert_entries (record { pid = 0; slot_num = 0 }) page.keys rs key val
    some (record page { keys = keys; values = records rs' })
]

unfoldable pub insert_child : BTreePage → BTreeKey → ℕ → Option BTreePage
insert_child page key val = elim page.values [
  | records _ ↦ none
  | children cs ↦ do
    (keys, cs') ← insert_entries 0 page.keys cs key val
    some (record page { keys = keys; values = children cs' })
]
