-- ===== src/Disk/Clock/Laws.antt =====
-- src/disk/clock_replacer.c: frames that become evictable, that are pinned again, and that are evicted.
use somedb.Base.{
  ℕ, zero, suc, ap, ◌∙◌, get_elem?, map, ◌+◌, ◌-◌, ◌≡◌, ◌≢◌, refl, leb, ltb, ◌==◌, Bool, true,
  false, none, some, List, [], ◌∷◌, length, set, arith,
}
use somedb.Base.Int.{ℤ}
use somedb.Disk.Clock.{
  Hand, null, dangling, node, ClockReplacer, no_frame, hand_after_insert, hand_after_remove,
  hand_at, free_key, free_keys, remove_frame, is_lone, drop_frame, evict_loop, evict,
  clock_replacer_pin, clock_replacer_unpin,
}
use somedb.Index.Page.{◌>>=◌}
use somedb.Sql.Token.{Text, text_eq}
use somedb.Utils.CircularList.{
  circular_list_insert, circular_list_next, circular_list_remove, removed,
}
use somedb.Utils.CircularList.Laws.{circular_list_remove-second}
use mathlib.Core.Option.{none-ne-some, some-injective}
use somedb.Utils.Hash.Remove.{hash_arr}
use somedb.Utils.Hash.{
  HashEl, HashTable, live, hash, hash_find, hash_insert, find_chain, insert_chain,
}
use somedb.Utils.Hash.Chain.{text_eq_refl}
use somedb.Utils.Hash.Lone.{
  HasChain, set-HasChain, hash_insert-empty, hash_insert-same, hash_find-empty, hash_find-lone,
  hash_remove-lone, hash_remove-empty,
}
use somedb.Utils.Serialize.{word32}

hand_after_remove-insert : (hand : Hand) → hand_after_remove 0 (hand_after_insert hand) ≡ hand
unfolding hand_after_remove hand_after_insert
hand_after_remove-insert null = refl
hand_after_remove-insert dangling = refl
hand_after_remove-insert (node h) =
    let other : (h + 1 == 0) ≡ false = ground arith in
    let behind : ltb 0 (h + 1) ≡ true = ground arith in
    let same : h + 1 - 1 ≡ h = omega arith in rw (other, behind, same)

free-live :
    (val : Text) (bit : Bool)
    → map (free_key val) (live val bit ∷ []) ≡ record { key = none; data_ = bit } ∷ []
unfolding free_key
free-live val bit = rw (text_eq_refl val)

get_elem?-free :
    (val : Text) (idx : ℕ) (bit : Bool) (arr : List (List (HashEl Bool)))
    → get_elem? arr idx ≡ some (live val bit ∷ [])
    → get_elem? (map (map (free_key val)) arr) idx ≡ some (record { key = none; data_ = bit } ∷ [])
get_elem?-free val idx bit [] h = absurd (none-ne-some _ h)
get_elem?-free val zero bit (c ∷ arr) h = rw (some-injective _ _ h) (ap some (free-live val bit))
get_elem?-free val (suc idx) bit (c ∷ arr) h = get_elem?-free val idx bit arr h

-- The freed key of a chain of one, where another chain is emptied.
freed-chain :
    (val : Text) (idx idx₂ : ℕ) (bit : Bool) (arr : List (List (HashEl Bool)))
    → get_elem? arr idx ≡ some []
    → get_elem? arr idx₂ ≡ some (live val bit ∷ [])
    → get_elem? (map (map (free_key val)) (set arr idx [])) idx₂
      ≡ some (record { key = none; data_ = bit } ∷ [])
unfolding free_key
freed-chain val idx idx₂ bit [] h h₂ = absurd (none-ne-some _ h)
freed-chain val zero zero bit (c ∷ arr) h h₂ = absurd cc
freed-chain val zero (suc idx₂) bit (c ∷ arr) h h₂ = get_elem?-free val idx₂ bit arr h₂
freed-chain val (suc idx) zero bit (c ∷ arr) h h₂ =
    rw (some-injective _ _ h₂) (ap some (free-live val bit))
freed-chain val (suc idx) (suc idx₂) bit (c ∷ arr) h h₂ = freed-chain val idx idx₂ bit arr h h₂

module _ (atoi : Text → ℤ) (print : ℕ → Text) where
  is_lone-HasChain :
      (table : HashTable Bool) (key : Text) (idx : ℕ) (chain : List (HashEl Bool))
      → HasChain atoi table key idx chain
      → is_lone atoi print key table ≡ some (leb (length chain) 1)
  unfolding is_lone
  is_lone-HasChain table key idx chain h = rw (h.hashed, h.there)

  -- A frame at the head, alone in its chain.
  drop_frame-head :
      (key : Text) (idx : ℕ) (bit : Bool) (capacity size : ℕ) (nodes : List Text)
      (table : HashTable Bool) (hand : Hand)
      → HasChain atoi table key idx (live key bit ∷ [])
      → drop_frame atoi print key (record {
        frames = record { capacity = capacity; size = size; nodes = key ∷ nodes };
        frame_table = table;
        hand = hand;
      })
        ≡ some (record {
          frames = record { capacity = capacity; size = size - 1; nodes = nodes };
          frame_table = record table { arr = set table.arr idx [] };
          hand = hand_after_remove 0 hand;
        })
  unfolding drop_frame remove_frame circular_list_remove removed
  drop_frame-head key idx bit capacity size nodes table hand h =
      let lone = is_lone-HasChain table key idx (live key bit ∷ []) h in
      rw (lone, hash_remove-lone atoi table key idx bit h, text_eq_refl key)

  -- A frame whose chain in the table is empty can be made evictable, and the table then holds it
  -- with its bit set; pinned again, it is gone from the table, and the list and the hand are as
  -- before. The list is not full.
  pub pin-unpin :
      (frame_id idx : ℕ) (replacer : ClockReplacer)
      → replacer.frames.size ≢ replacer.frames.capacity
      → HasChain atoi replacer.frame_table (print frame_id) idx []
      → (replacer₁ : ClockReplacer) × (replacer₂ : ClockReplacer) × (clock_replacer_unpin atoi print
            frame_id replacer
          ≡ some replacer₁)
        × (hash_find atoi (print frame_id) replacer₁.frame_table ≡ some (some true))
        × (clock_replacer_pin atoi print frame_id replacer₁ ≡ some replacer₂)
        × (replacer₂.frames ≡ replacer.frames)
        × (replacer₂.hand ≡ replacer.hand)
        × (hash_find atoi (print frame_id) replacer₂.frame_table ≡ some none)
  unfolding clock_replacer_unpin clock_replacer_pin circular_list_insert
  pin-unpin frame_id idx replacer space h =
      let key = print frame_id in
      let table = replacer.frame_table in
      let frames = replacer.frames in
      let table₁ : HashTable Bool = record table { arr = set table.arr idx (live key true ∷ []) } in
      let h₁ = set-HasChain atoi table key idx [] (live key true ∷ []) h in
      let h₂ = set-HasChain atoi table₁ key idx (live key true ∷ []) [] h₁ in
      let room : (frames.size == frames.capacity) ≡ false = ground arith in
      let inserted : circular_list_insert (some key) frames
          ≡ (true, record frames { nodes = key ∷ frames.nodes; size = frames.size + 1 }) =
        rw (circular_list_insert, room) in
      let less : frames.size + 1 - 1 ≡ frames.size = omega arith in
      (
        _,
        _,
        rw (
          clock_replacer_unpin,
          inserted,
          hash_insert-empty atoi table key idx true h,
          ◌>>=◌,
          inserted,
        ),
        hash_find-lone atoi table₁ key idx true h₁,
        drop_frame-head key idx true frames.capacity (frames.size + 1) frames.nodes table₁
            (hand_after_insert replacer.hand) h₁,
        rw less,
        hand_after_remove-insert replacer.hand,
        hash_find-empty atoi (record table₁ { arr = set table₁.arr idx [] }) key idx h₂,
      )

  pub pin-absent :
      (frame_id idx capacity size : ℕ) (head : Text) (second : ℕ) (nodes : List Text)
      (table : HashTable Bool) (hand : Hand) (idx₂ : ℕ) (bit : Bool)
      → HasChain atoi table (print frame_id) idx []
      → text_eq head (print frame_id) ≡ false
      → HasChain atoi table (print second) idx₂ (live (print second) bit ∷ [])
      → size - 1 ≢ capacity
      → (replacer : ClockReplacer) × (clock_replacer_pin atoi print frame_id (record {
        frames = record { capacity = capacity; size = size; nodes = head ∷ print second ∷ nodes };
        frame_table = table;
        hand = hand;
      })
          ≡ some replacer)
        × (replacer.frames ≡ record { capacity = capacity; size = size - 1; nodes = head ∷ nodes })
        × (replacer.hand ≡ hand_after_remove 1 hand)
        × (hash_find atoi (print second) replacer.frame_table ≡ none)
        × (clock_replacer_unpin atoi print second replacer ≡ none)
  unfolding clock_replacer_pin drop_frame remove_frame clock_replacer_unpin hash_find find_chain
      hash_insert insert_chain free_keys free_key circular_list_insert
  pin-absent frame_id idx capacity size head second nodes table hand idx₂ bit h other h₂ space =
      let key = print frame_id in
      let table' = free_keys (print second) (record table { arr = set table.arr idx [] }) in
      let hashed : hash atoi (print second) table' ≡ some idx₂ =
        hash_arr atoi (print second) table'.arr table.arr table.size ∙ h₂.hashed in
      let there : get_elem? table'.arr idx₂ ≡ some (record { key = none; data_ = bit } ∷ []) =
        freed-chain (print second) idx idx₂ bit table.arr h.there h₂.there in
      let room : (size - 1 == capacity) ≡ false = ground arith in
      let inserted : circular_list_insert (some (print second))
            (record { capacity = capacity; size = size - 1; nodes = head ∷ nodes })
          ≡ (
            true,
            record {
              capacity = capacity;
              nodes = print second ∷ head ∷ nodes;
              size = size - 1 + 1;
            },
          ) =
        rw (circular_list_insert, room) in
      (
        record {
          frames = record { capacity = capacity; size = size - 1; nodes = head ∷ nodes };
          frame_table = table';
          hand = hand_after_remove 1 hand;
        },
        rw (
          is_lone-HasChain table key idx [] h,
          hash_remove-empty atoi table key idx h,
          circular_list_remove-second capacity size key head (print second) nodes other,
          other,
        ),
        refl,
        refl,
        rw (hash_find, hashed, ◌>>=◌, there),
        rw (clock_replacer_unpin, inserted, ◌>>=◌, hashed, there),
      )

  -- Where one frame is in the list, with its bit set: the first call of evict clears the bit
  -- and gives UINT32_MAX; the second takes the frame out of the list and of the table, and
  -- gives it.
  evict-second_chance :
      (key : Text) (idx capacity : ℕ) (table : HashTable Bool)
      → HasChain atoi table key idx (live key true ∷ [])
      → (replacer₁ : ClockReplacer) × (replacer₂ : ClockReplacer) × (evict atoi print (record {
        frames = record { capacity = capacity; size = 1; nodes = key ∷ [] };
        frame_table = table;
        hand = null;
      })
          ≡ some (no_frame, replacer₁))
        × (evict atoi print replacer₁ ≡ some (word32 (atoi key), replacer₂))
        × (replacer₂.frames.nodes ≡ [])
        × (hash_find atoi key replacer₂.frame_table ≡ some none)
  unfolding evict evict_loop hand_at circular_list_next
  evict-second_chance key idx capacity table h =
      let table₁ : HashTable Bool = record table {
        arr = set table.arr idx (live key false ∷ []);
      } in
      let h₁ = set-HasChain atoi table key idx (live key true ∷ []) (live key false ∷ []) h in
      let h₂ = set-HasChain atoi table₁ key idx (live key false ∷ []) [] h₁ in
      (
        record {
          frames = record { capacity = capacity; size = 1; nodes = key ∷ [] };
          frame_table = table₁;
          hand = node 0;
        },
        record {
          frames = record { capacity = capacity; size = 0; nodes = [] };
          frame_table = record table₁ { arr = set table₁.arr idx [] };
          hand = hand_after_remove 0 (node 0);
        },
        rw (
          hash_find-lone atoi table key idx true h,
          hash_insert-same atoi table key idx true false h,
        ),
        rw (
          hash_find-lone atoi table₁ key idx false h₁,
          drop_frame-head key idx false capacity 1 [] table₁ (node 0) h₁,
        ),
        refl,
        hash_find-empty atoi (record table₁ { arr = set table₁.arr idx [] }) key idx h₂,
      )
