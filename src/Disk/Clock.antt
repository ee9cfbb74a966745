-- ===== src/Disk/Clock.antt =====
-- include/disk/clock_replacer.h and src/disk/clock_replacer.c: the frames that may be evicted.
-- A result `none` is undefined behaviour. The string of a frame is shared by its node and its key in
-- the table: where the table holds another key in the same chain as a pinned frame, a removal frees a
-- string that is in use, and the model ends with `none`; a key that is freed with another node is
-- `none` in the table, and to read it is undefined. `atoi` and `snprintf` belong to the C library. The latch is
-- not modelled.
pub mod Laws
use somedb.Base.{
  ℕ, zero, suc, ◌+◌, ◌-◌, ◌^◌, leb, ltb, ◌==◌, Bool, true, false, Option, none, some, List, [], ◌∷◌,
  length, get_elem?, map, if◌then◌else◌,
}
use somedb.Base.Int.{ℤ}
use somedb.Index.Page.{◌>>=◌}
use somedb.Sql.Token.{Text, text_eq}
use somedb.Utils.CircularList.{
  CircularList, circular_list_init, circular_list_next, circular_list_insert, circular_list_remove,
}
use somedb.Utils.Hash.{HashEl, HashTable, init_hash, hash, hash_find, hash_insert, hash_remove}
use somedb.Utils.Serialize.{word32}

-- The position of the node from the head on; a node that was freed is `dangling`.
pub data Hand : Type 0 where
  null dangling : Hand
  node : ℕ → Hand

pub record ClockReplacer : Type 0 where
  pub frames : CircularList
  pub frame_table : HashTable Bool
  pub hand : Hand

abbrev pub no_frame : ℕ
no_frame = 2 ^ 32 - 1

unfoldable pub clock_replacer_init : ℕ → ClockReplacer
clock_replacer_init capacity = record {
  frames = circular_list_init capacity;
  frame_table = init_hash capacity;
  hand = null;
}

-- A new node is the head; the others are one place further.
unfoldable pub hand_after_insert : Hand → Hand
hand_after_insert (node h) = node (h + 1)
hand_after_insert null = null
hand_after_insert dangling = dangling

unfoldable pub hand_after_remove : ℕ → Hand → Hand
hand_after_remove position (node h) =
    if h == position then dangling else if ltb position h then node (h - 1) else node h
hand_after_remove position null = null
hand_after_remove position dangling = dangling

-- The head, or the node that a NULL leads to.
unfoldable pub hand_at : Option ℕ → Hand
hand_at none = null
hand_at (some h) = node h

-- `free` of the string of a node that the pinned frame does not name: where it is a key of the table,
-- that key is freed, and so is that of an equal string.
unfoldable pub free_key : Text → HashEl Bool → HashEl Bool
free_key val el = elim el.key [
  | none ↦ el
  | some key ↦ if text_eq key val then record el { key = none } else el
]

unfoldable pub free_keys : Text → HashTable Bool → HashTable Bool
free_keys val table = record table { arr = map (map (free_key val)) table.arr }

-- `circular_list_remove`, with the node that it takes out: the head, or the second node.
unfoldable pub remove_frame : Text → ClockReplacer → Option ClockReplacer
remove_frame frame_str replacer = do
  (removed, frames) ← circular_list_remove frame_str replacer.frames
  elim replacer.frames.nodes [
    | [] ↦ some replacer
    | head ∷ next ↦ elim (text_eq head frame_str) [
      | true ↦ some (record replacer { frames = frames; hand = hand_after_remove 0 replacer.hand })
      | false ↦ elim next [
        | [] ↦ none
        | second ∷ rest ↦ some (record {
          frames = frames;
          frame_table = free_keys second replacer.frame_table;
          hand = hand_after_remove 1 replacer.hand;
        })
      ]
    ]
  ]

module _ (atoi : Text → ℤ) (print : ℕ → Text) where
  -- Whether the chain of a key holds no second key.
  unfoldable pub is_lone : Text → HashTable Bool → Option Bool
  is_lone key table = do
    idx ← hash atoi key table
    chain ← get_elem? table.arr idx
    some (leb (length chain) 1)

  -- The removal of a frame from the table and from the list. The pointer `ok` is tested, and not what
  -- it points to.
  unfoldable pub drop_frame : Text → ClockReplacer → Option ClockReplacer
  drop_frame frame_str replacer = do
    lone ← is_lone frame_str replacer.frame_table
    (table, ok) ← hash_remove atoi frame_str replacer.frame_table
    after ← remove_frame frame_str (record replacer { frame_table = table })
    (if lone then some after else none)

  -- The loop of `evict`, by the rounds that are left.
  unfoldable pub evict_loop : ℕ → ClockReplacer → Option (ℕ × ClockReplacer)
  evict_loop zero replacer = some (no_frame, replacer)
  evict_loop (suc n) replacer = elim replacer.hand [
    | null ↦ none
    | dangling ↦ none
    | node h ↦ do
      curr_frame ← get_elem? replacer.frames.nodes h
      frame_info ← hash_find atoi curr_frame replacer.frame_table
      ref_bit ← frame_info
      elim ref_bit [
        | true ↦ do
          table ← hash_insert atoi (some curr_frame) (some false) replacer.frame_table
          evict_loop n (record replacer {
            frame_table = table;
            hand = hand_at (circular_list_next h replacer.frames);
          })
        | false ↦ do after ← drop_frame curr_frame replacer; some (word32 (atoi curr_frame), after)
      ]
  ]

  -- The frame, or `UINT32_MAX`.
  unfoldable pub evict : ClockReplacer → Option (ℕ × ClockReplacer)
  evict replacer = elim (replacer.frames.size == 0) [
    | true ↦ some (no_frame, replacer)
    | false ↦
        let hand : Hand = elim replacer.hand [
          | null ↦ node 0
          | node h ↦ node h
          | dangling ↦ dangling
        ] in
        evict_loop replacer.frames.size (record replacer { hand = hand })
  ]

  unfoldable pub clock_replacer_pin : ℕ → ClockReplacer → Option ClockReplacer
  clock_replacer_pin frame_id replacer = drop_frame (print frame_id) replacer

  unfoldable pub clock_replacer_unpin : ℕ → ClockReplacer → Option ClockReplacer
  clock_replacer_unpin frame_id replacer =
      let (made, frames) = circular_list_insert (some (print frame_id)) replacer.frames in
      elim made [
        | false ↦ some replacer
        | true ↦ do
          table ← hash_insert atoi (some (print frame_id)) (some true) replacer.frame_table
          some (record {
            frames = frames;
            frame_table = table;
            hand = hand_after_insert replacer.hand;
          })
      ]
