-- ===== src/Index/Tests.antt =====
-- The index on small nodes.
use somedb.Base.{if◌then◌else◌, ◌==◌}
use somedb.Index.Page.{children}
use somedb.Index.Tree
use somedb.Index.Tree.{BTree, btree_index, redistribute_records, redistribute_children}
use somedb.Index.Tree.Meta.{deserialize-serialize_metadata}
use somedb.Index.Tree.Split.{redistribute_children-halves}
use somedb.Base.{ℕ, ◌≡◌, refl, false, some, none, List, [], ◌∷◌, arith, ◌+◌}
use somedb.Index.Codec.{record_codec, child_codec}
use somedb.Index.Key.{BTreeKey, cmp_keys, memcmp}
use somedb.Index.Order.{Placed, insert_record-Sorted}
use somedb.Index.Page.{Rid, ◌>>=◌, insert_record}
use somedb.Index.Page.Insert.{Sorted}
use somedb.Index.Page.Shift.{Entry}
use somedb.Index.Serial.{serialize, deserialize, read_entries}
use somedb.Index.Serial.RoundTrip.{
  leaf_page, internal_page, deserialize-serialize_leaf, deserialize-serialize_internal,
  read_entries-stuck,
}
use somedb.Index.Serial.Stored.{AllFit}

abbrev key_of : ℕ → BTreeKey
key_of n = record { bytes = n ∷ []; size = 1 }

abbrev rid : ℕ → Rid
rid n = record { pid = n; slot_num = n + 1 }

abbrev leaf_entries : List (Entry Rid)
leaf_entries = (key_of 3, rid 7) ∷ (key_of 9, rid 8) ∷ []

abbrev node_entries : List (Entry ℕ)
node_entries = (key_of 3, 7) ∷ (key_of 9, 8) ∷ []

leaf_entries-Sorted : Sorted leaf_entries
unfolding cmp_keys memcmp
leaf_entries-Sorted = ((λ h. cc), (tt, tt))

node_entries-Sorted : Sorted node_entries
unfolding cmp_keys memcmp
node_entries-Sorted = ((λ h. cc), (tt, tt))

leaf_entries-AllFit : AllFit record_codec leaf_entries
leaf_entries-AllFit = (
  record {
    nonempty = omega arith;
    short = omega arith;
    whole = refl;
    value = (omega arith, omega arith);
  },
  (
    record {
      nonempty = omega arith;
      short = omega arith;
      whole = refl;
      value = (omega arith, omega arith);
    },
    tt,
  ),
)

node_entries-AllFit : AllFit child_codec node_entries
node_entries-AllFit = (
  record { nonempty = omega arith; short = omega arith; whole = refl; value = omega arith },
  (record { nonempty = omega arith; short = omega arith; whole = refl; value = omega arith }, tt),
)

deserialize-serialize_leaf_example :
    serialize (leaf_page 1 2 3 leaf_entries) (λ _. 0) >>= deserialize 5
    ≡ some (leaf_page 1 2 3 leaf_entries)
deserialize-serialize_leaf_example =
    deserialize-serialize_leaf 1 2 3 leaf_entries (λ _. 0) 5 (omega arith) (omega arith)
      (omega arith) leaf_entries-AllFit (omega arith) (omega arith)

deserialize-serialize_internal_example :
    serialize (internal_page 1 2 3 node_entries) (λ _. 0) >>= deserialize 5
    ≡ some (internal_page 1 2 3 node_entries)
deserialize-serialize_internal_example =
    deserialize-serialize_internal 1 2 3 node_entries (λ _. 0) 5 (omega arith) (omega arith)
      (omega arith) node_entries-AllFit (omega arith) (omega arith)

read_entries-stuck_example : read_entries child_codec 100 false (λ _. 0) 4000 ≡ none
read_entries-stuck_example = read_entries-stuck 100 (λ _. 0) 4000 (omega arith) refl

insert_record-Sorted_example :
    (after : List (Entry Rid)) × (insert_record (leaf_page 1 2 3 leaf_entries) (key_of 5) (rid 6)
      ≡ some (leaf_page 1 2 3 after))
    × Placed leaf_entries (key_of 5, rid 6) after
    × Sorted after
insert_record-Sorted_example =
    insert_record-Sorted 1 2 3 leaf_entries (key_of 5) (rid 6) (omega arith) leaf_entries-Sorted

abbrev five : List ℕ
five = 1 ∷ 2 ∷ 3 ∷ 4 ∷ 5 ∷ []

abbrev small_tree : BTree
small_tree = record { magic_num = btree_index; max_size = 4; root_pid = 7; node_count = 3 }

deserialize-serialize_metadata_example :
    Tree.deserialize (Tree.serialize small_tree (λ _. 0))
    ≡ (if small_tree.magic_num == btree_index then some small_tree else none)
deserialize-serialize_metadata_example =
    deserialize-serialize_metadata small_tree (λ _. 0) (omega arith) (omega arith) (omega arith)
      (omega arith)

redistribute_children-halves_example :
    redistribute_children
      (internal_page 0 0 0 [])
      (internal_page 1 2 3 ((key_of 3, 7) ∷ (key_of 5, 8) ∷ (key_of 9, 9) ∷ []))
    ≡ some (
      internal_page 0 2 0 ((key_of 9, 9) ∷ []),
      record (internal_page 1 8 3 ((key_of 3, 7) ∷ [])) { values = children (7 ∷ 8 ∷ []) },
    )
redistribute_children-halves_example =
    redistribute_children-halves 1 2 3 0 0 0 ((key_of 3, 7) ∷ []) (key_of 5, 8) ((key_of 9, 9) ∷ [])
      (omega arith)
