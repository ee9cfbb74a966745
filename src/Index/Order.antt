-- ===== src/Index/Order.antt =====
-- src/index/index_page.cpp: what `insertIntoNode` does to the page of a node.
use somedb.Base.{arith, ap, length-append, ◌+◌, ℕ, ◌<◌, ◌≡◌, refl, some, List, ◌∷◌, ◌++◌, length}
use somedb.Index.Key.{BTreeKey}
use somedb.Index.Page.{Rid, insert_entries, insert_record, insert_child}
use somedb.Index.Page.Insert.{Sorted, insert_entries-Inserted}
use somedb.Index.Page.Shift.{Entry, keys_of, values_of}
use somedb.Index.Serial.RoundTrip.{leaf_page, internal_page}

-- The entries `after` are `es` with the new entry at one place.
pub record Placed {ℓ} {V : Type ℓ} (es : List (Entry V)) (e : Entry V) (after : List (Entry V))
    : Type ℓ where
  pub front : List (Entry V)
  pub back : List (Entry V)
  pub before : es ≡ front ++ back
  pub placed : after ≡ front ++ e ∷ back

pub length-Placed {ℓ} :
    {V : Type ℓ} (es after : List (Entry V)) (e : Entry V)
    → Placed es e after
    → length after ≡ length es + 1
length-Placed es after e p = omega (
  arith,
  ap length p.before,
  ap length p.placed,
  length-append p.front p.back,
  length-append p.front (e ∷ p.back),
)

-- For fewer than 65535 entries with sorted keys, `insertIntoNode` is within range at every access,
-- leaves the entries with the new one at one place, each key beside its value, and sorted.
insert_entries-Sorted {ℓ} :
    {V : Type ℓ} (no_value : V) (es : List (Entry V)) (key : BTreeKey) (val : V)
    → length es < 65535
    → Sorted es
    → (after : List (Entry V)) × (insert_entries no_value (keys_of es) (values_of es) key val
        ≡ some (keys_of after, values_of after))
      × Placed es (key, val) after
      × Sorted after
insert_entries-Sorted no_value es key val h s =
    let r = insert_entries-Inserted no_value es key val h in
    (
      r.front ++ (key, val) ∷ r.back,
      r.stored,
      record { front = r.front; back = r.back; before = r.split; placed = refl },
      r.sorted s,
    )

-- For a leaf of fewer than 65535 entries with sorted keys, the insertion of a record returns the
-- leaf with the header fields it had and the entry at one place of its entries, which are sorted.
pub insert_record-Sorted :
    (flags rightmost_ptr next : ℕ) (es : List (Entry Rid)) (key : BTreeKey) (val : Rid)
    → length es < 65535
    → Sorted es
    → (after : List (Entry Rid)) × (insert_record (leaf_page flags rightmost_ptr next es) key val
        ≡ some (leaf_page flags rightmost_ptr next after))
      × Placed es (key, val) after
      × Sorted after
unfolding insert_record
insert_record-Sorted flags rightmost_ptr next es key val h s =
    let (after, stored, placed, sorted) =
      insert_entries-Sorted (record { pid = 0; slot_num = 0 }) es key val h s in
    (after, rw stored, placed, sorted)

-- For an internal node of fewer than 65535 entries with sorted keys, the insertion of a child does
-- the same.
pub insert_child-Sorted :
    (flags rightmost_ptr next : ℕ) (es : List (Entry ℕ)) (key : BTreeKey) (val : ℕ)
    → length es < 65535
    → Sorted es
    → (after : List (Entry ℕ)) × (insert_child (internal_page flags rightmost_ptr next es) key val
        ≡ some (internal_page flags rightmost_ptr next after))
      × Placed es (key, val) after
      × Sorted after
unfolding insert_child
insert_child-Sorted flags rightmost_ptr next es key val h s =
    let (after, stored, placed, sorted) = insert_entries-Sorted 0 es key val h s in
    (after, rw stored, placed, sorted)
