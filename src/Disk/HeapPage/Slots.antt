-- ===== src/Disk/HeapPage/Slots.antt =====
-- src/disk/heapfile.c: what it is for tuples to stand in a page.
use somedb.Base.{
  ℕ, zero, suc, ◌+◌, ◌*◌, ◌%◌, ◌<◌, ◌≤◌, ◌≡◌, ◌≢◌, refl, ◌∙◌, Option, none, some, List, [], ◌∷◌,
  ◌++◌, length, set, get_elem?, arith,
}
use somedb.Disk.HeapPage.{extract_tuple_ptr}
use somedb.Index.Serial.{page_size, bytes_at}
use somedb.Utils.Serialize.{Buf, decode_uint16}

pub decode_uint16_at :
    (a b : Buf) (p : ℕ) → a p ≡ b p → a (p + 1) ≡ b (p + 1) → decode_uint16 a p ≡ decode_uint16 b p
unfolding decode_uint16
decode_uint16_at a b p h k = rw (h, k)

pub bytes_at_local :
    (a b : Buf) (n p : ℕ)
    → ((q : ℕ) → p ≤ q → q < p + n → a q ≡ b q)
    → bytes_at a n p ≡ bytes_at b n p
unfolding bytes_at
bytes_at_local a b zero p h = refl
bytes_at_local a b (suc n) p h = rw (
  h p (omega arith) (omega arith),
  bytes_at_local a b n (p + 1) (λ q k l. h q (omega arith) (omega arith)),
)

-- A slot is a tuple's bytes, or `none` where the tuple was removed. Tuples stand from `low` on.
abbrev pub SlotAt : Buf → ℕ → ℕ → Option (List ℕ) → Type 0
SlotAt page low i none = (extract_tuple_ptr page i).start_offset ≡ 0
SlotAt page low i (some bytes) =
    ((extract_tuple_ptr page i).size ≡ length bytes)
    × (low ≤ (extract_tuple_ptr page i).start_offset)
    × ((extract_tuple_ptr page i).start_offset + length bytes ≤ page_size)
    × (bytes_at page (length bytes) (extract_tuple_ptr page i).start_offset ≡ bytes)

abbrev pub Slots : Buf → ℕ → ℕ → List (Option (List ℕ)) → Type 0
Slots page low i [] = Unit
Slots page low i (s ∷ ss) = SlotAt page low i s × Slots page low (suc i) ss

-- The tuple pointer of a slot is the same in two pages.
abbrev pub SamePtr : Buf → Buf → ℕ → Type 0
SamePtr a b i = (q : ℕ) → 5 + 4 * i ≤ q → q < 9 + 4 * i → a q ≡ b q

-- Two pages agree on the tuples.
abbrev pub SameFrom : Buf → Buf → ℕ → Type 0
SameFrom a b low = (q : ℕ) → low ≤ q → q < page_size → a q ≡ b q

pub extract_tuple_ptr-cong :
    (a b : Buf) (i : ℕ) → i < 1024 → SamePtr a b i → extract_tuple_ptr a i ≡ extract_tuple_ptr b i
unfolding extract_tuple_ptr
extract_tuple_ptr-cong a b i h same =
    let p = 5 + i * 4 % 4294967296 in
    let e =
      decode_uint16_at a b p (same p (omega arith) (omega arith))
        (same (p + 1) (omega arith) (omega arith)) in
    let f =
      decode_uint16_at a b (p + 2) (same (p + 2) (omega arith) (omega arith))
        (same (p + 2 + 1) (omega arith) (omega arith)) in
    λ j. record { start_offset = e j; size = f j }

SlotAt-cong :
    (a b : Buf) (low low' i : ℕ) (s : Option (List ℕ))
    → i < 1024
    → SamePtr a b i
    → SameFrom a b low
    → low' ≤ low
    → SlotAt b low i s
    → SlotAt a low' i s
SlotAt-cong a b low low' i none h same from le slot = rw (extract_tuple_ptr-cong a b i h same) slot
SlotAt-cong a b low low' i (some bytes) h same from le slot =
    let p = (extract_tuple_ptr b i).start_offset in
    rw (extract_tuple_ptr-cong a b i h same) (
      slot.0,
      omega (arith, slot.1),
      slot.2,
      bytes_at_local a b (length bytes) p
            (λ q k l. from q (omega (arith, slot.1)) (omega (arith, slot.2)))
          ∙ slot.3,
    )

pub Slots-cong :
    (a b : Buf) (low low' i : ℕ) (ss : List (Option (List ℕ)))
    → i + length ss ≤ 1024
    → ((j : ℕ) → i ≤ j → j < i + length ss → SamePtr a b j)
    → SameFrom a b low
    → low' ≤ low
    → Slots b low i ss
    → Slots a low' i ss
Slots-cong a b low low' i [] h same from le slots = tt
Slots-cong a b low low' i (s ∷ ss) h same from le slots = (
  SlotAt-cong a b low low' i s (omega arith) (same i (omega arith) (omega arith)) from le slots.0,
  Slots-cong a b low low' (suc i) ss (omega arith) (λ j k l. same j (omega arith) (omega arith))
      from le slots.1,
)

pub Slots-snoc :
    (page : Buf) (low i : ℕ) (ss : List (Option (List ℕ))) (s : Option (List ℕ))
    → Slots page low i ss
    → SlotAt page low (i + length ss) s
    → Slots page low i (ss ++ s ∷ [])
Slots-snoc page low i [] s slots slot = let e : i + 0 ≡ i = omega arith in (rw e at slot, tt)
Slots-snoc page low i (x ∷ ss) s slots slot =
    let e : i + suc (length ss) ≡ suc i + length ss = omega arith in
    (slots.0, Slots-snoc page low (suc i) ss s slots.1 (rw e at slot))

-- The pointer of one slot is cleared, and the others stay.
pub Slots-set :
    (a b : Buf) (low i k : ℕ) (ss : List (Option (List ℕ)))
    → i + length ss ≤ 1024
    → ((j : ℕ) → j < 1024 → j ≢ i + k → SamePtr a b j)
    → SameFrom a b low
    → (extract_tuple_ptr a (i + k)).start_offset ≡ 0
    → Slots b low i ss
    → Slots a low i (set ss k none)
Slots-set a b low i k [] h same from gone slots = tt
Slots-set a b low i zero (s ∷ ss) h same from gone slots =
    let e : i + 0 ≡ i = omega arith in
    (
      rw e at gone,
      Slots-cong a b low low (suc i) ss (omega arith) (λ j l m. same j (omega arith) (omega arith))
          from (omega arith) slots.1,
    )
Slots-set a b low i (suc k) (s ∷ ss) h same from gone slots =
    let e : i + suc k ≡ suc i + k = omega arith in
    (
      SlotAt-cong a b low low i s (omega arith) (same i (omega arith) (omega arith)) from
          (omega arith) slots.0,
      Slots-set a b low (suc i) k ss (omega arith) (λ j l m. same j l (omega arith)) from
          (rw e at gone) slots.1,
    )

pub Slots-at :
    (page : Buf) (low i k : ℕ) (ss : List (Option (List ℕ))) (s : Option (List ℕ))
    → get_elem? ss k ≡ some s
    → Slots page low i ss
    → SlotAt page low (i + k) s
Slots-at page low i k [] s h slots = cc
Slots-at page low i zero (x ∷ ss) s h slots =
    let e : x ≡ s = cc in let z : i ≡ i + 0 = omega arith in rw (← e, ← z) slots.0
Slots-at page low i (suc k) (x ∷ ss) s h slots =
    let e : suc i + k ≡ i + suc k = omega arith in
    let r = Slots-at page low (suc i) k ss s h slots.1 in rw e at r
