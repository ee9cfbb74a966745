-- ===== src/Disk/HeapPage/Refine.antt =====
-- src/disk/heapfile.c: a page as the list of its slots.
use Prim.Native.Nat.{bit_or}
use somedb.Base.{
  ℕ, zero, suc, ◌+◌, ◌-◌, ◌*◌, ◌%◌, ◌<◌, ◌≤◌, ◌≡◌, ◌≢◌, refl, ap, ◌⊎◌, inl, inr, ◌∙◌, leb, ◌==◌,
  true, false, Option, none, some, List, [], ◌∷◌, ◌++◌, length, length-append, set, get_elem?,
  arith,
}
use somedb.Disk.HeapPage.{
  Header, TuplePtr, extract_header, extract_tuple_ptr, construct_page_header_buf,
  construct_page_tuple_ptr, new_page_buf, write_tuple, remove_slot, get_slot,
}
use somedb.Disk.HeapPage.Slots.{
  Slots, SlotAt, SamePtr, SameFrom, Slots-cong, Slots-snoc, Slots-set, Slots-at, decode_uint16_at,
}
use somedb.Index.Serial.{page_size, bytes_at, copy}
use somedb.Index.Serial.RoundTrip.{store-before}
use somedb.Index.Serial.Written.{
  bytes_at-eq, copy-inside, copy-after, copy-before, store-after, encode_uint16-after,
}
use somedb.Index.Tree.Meta.{encode_uint16-before}
use somedb.Utils.Serialize.{Buf, store, encode_uint16, decode_uint16}
use somedb.Utils.Serialize.Laws.{decode-encode_uint16}

-- A page holds these slots, `none` where the tuple was removed: the free space lies between their
-- pointers and the tuples.
pub record Represents (page : Buf) (ss : List (Option (List ℕ))) : Type 0 where
  pub start : decode_uint16 page 0 ≡ 5 + 4 * length ss
  pub room : 5 + 4 * length ss ≤ decode_uint16 page 2
  pub top : decode_uint16 page 2 < page_size
  pub slots : Slots page (decode_uint16 page 2) 0 ss

encode_uint16-other :
    (w : ℕ) (buf : Buf) (p q : ℕ) → (q < p) ⊎ (p + 2 ≤ q) → encode_uint16 w buf p q ≡ buf q
encode_uint16-other w buf p q (inl h) = encode_uint16-before w buf p q h
encode_uint16-other w buf p q (inr h) = encode_uint16-after w buf p q h

length-set {ℓ} : {A : Type ℓ} (xs : List A) (i : ℕ) (v : A) → length (set xs i v) ≡ length xs
length-set [] i v = refl
length-set (x ∷ xs) zero v = refl
length-set (x ∷ xs) (suc i) v = ap suc (length-set xs i v)

zero_add : (n : ℕ) → 0 + n ≡ n
zero_add n = omega arith

-- What a header says, and that it leaves the rest of the page.
header-after :
    (page : Buf) (h : Header) (q : ℕ) → 5 ≤ q → construct_page_header_buf page h q ≡ page q
unfolding construct_page_header_buf
header-after page h q k =
    let d₁ = encode_uint16 h.free_start page 0 in
    let d₂ = encode_uint16 h.free_end d₁ 2 in
    store-after d₂ 4 h.flags q (omega arith)
    ∙ encode_uint16-after h.free_end d₁ 2 q (omega arith)
    ∙ encode_uint16-after h.free_start page 0 q (omega arith)

header-start :
    (page : Buf) (h : Header)
    → h.free_start < 65536
    → decode_uint16 (construct_page_header_buf page h) 0 ≡ h.free_start
unfolding construct_page_header_buf
header-start page h k =
    let d₁ = encode_uint16 h.free_start page 0 in
    let d₂ = encode_uint16 h.free_end d₁ 2 in
    let d₃ = store d₂ 4 h.flags in
    let to₁ : (q : ℕ) → q < 2 → d₃ q ≡ d₁ q =
      λ q l. store-before d₂ 4 h.flags q (omega arith) ∙ encode_uint16-before h.free_end d₁ 2 q l in
    decode_uint16_at d₃ d₁ 0 (to₁ 0 (omega arith)) (to₁ 1 (omega arith))
    ∙ decode-encode_uint16 h.free_start page 0 k

header-end :
    (page : Buf) (h : Header)
    → h.free_end < 65536
    → decode_uint16 (construct_page_header_buf page h) 2 ≡ h.free_end
unfolding construct_page_header_buf
header-end page h k =
    let d₁ = encode_uint16 h.free_start page 0 in
    let d₂ = encode_uint16 h.free_end d₁ 2 in
    decode_uint16_at (store d₂ 4 h.flags) d₂ 2 (store-before d₂ 4 h.flags 2 (omega arith))
      (store-before d₂ 4 h.flags 3 (omega arith))
    ∙ decode-encode_uint16 h.free_end d₁ 2 k

-- Only the bytes of the page count.
pub Represents-cong :
    (a b : Buf) (ss : List (Option (List ℕ)))
    → ((q : ℕ) → q < page_size → a q ≡ b q)
    → Represents b ss
    → Represents a ss
Represents-cong a b ss h r =
    let s = decode_uint16_at a b 0 (h 0 (omega arith)) (h 1 (omega arith)) in
    let e = decode_uint16_at a b 2 (h 2 (omega arith)) (h 3 (omega arith)) in
    let top = decode_uint16 b 2 in
    record {
      start = s ∙ r.start;
      room = omega (arith, e, r.room);
      top = omega (arith, e, r.top);
      slots = rw e (
          Slots-cong a b top top 0 ss (omega (arith, r.room, r.top))
            (λ j k l q u v. h q (omega (arith, r.room, r.top))) (λ q k l. h q l) (omega arith)
            r.slots);
    }

-- A new page has no slots.
pub new_page_buf-Represents : (pid : ℕ) (page : Buf) → Represents (new_page_buf pid page) []
unfolding new_page_buf
new_page_buf-Represents pid page =
    let header : Header = record { id = pid; free_start = 5; free_end = 4095; flags = 0 } in
    let s = header-start page header (omega arith) in
    let e = header-end page header (omega arith) in
    record { start = s ∙ omega arith; room = omega (arith, e); top = omega (arith, e); slots = tt }

-- In a page with room for the tuple and its pointer, add_tuple writes inside the page, and the
-- page then has one slot more, at the end, with the bytes of the tuple; the other slots stay. The
-- pointer that is returned is the one of the new slot.
pub write_tuple-Represents :
    (page : Buf) (pid : ℕ) (ss : List (Option (List ℕ))) (bytes : List ℕ)
    → Represents page ss
    → 9 + 4 * length ss + length bytes ≤ decode_uint16 page 2
    → (after : Buf) × (ptr : TuplePtr) × (write_tuple page (extract_header page pid) bytes
        ≡ some (after, ptr))
      × Represents after (ss ++ some bytes ∷ [])
      × (extract_tuple_ptr after (length ss) ≡ ptr)
unfolding write_tuple extract_header extract_tuple_ptr
write_tuple-Represents page pid ss bytes r room =
    let n = length ss in
    let size = length bytes in
    let top = decode_uint16 page 2 in
    let start = top - size in
    let p = 5 + 4 * n in
    let here : (5 + n * 4 % 4294967296) ≡ p = omega (arith, r.top) in
    let off : (top + 65536 - size) % 65536 ≡ start = omega (arith, r.top) in
    let next : (p + 4) % 65536 ≡ p + 4 = omega (arith, r.top) in
    let fit₁ : leb (p + 4) 4096 ≡ true = ground (arith, r.top) in
    let fit₂ : leb top 4096 ≡ true = ground (arith, r.top) in
    let fit₃ : leb size top ≡ true = ground arith in
    let d₁ = encode_uint16 start page p in
    let d₂ = encode_uint16 size d₁ (p + 2) in
    let d₃ = copy d₂ start size bytes in
    let header : Header = record {
      id = pid;
      free_start = p + 4;
      free_end = start;
      flags = page 4;
    } in
    let after = construct_page_header_buf d₃ header in
    let to₂ : (q : ℕ) → 5 ≤ q → q < start → after q ≡ d₂ q =
      λ q h k. header-after d₃ header q h ∙ copy-before d₂ start size q bytes k in
    let low : (q : ℕ) → 5 ≤ q → q < p → after q ≡ page q = λ q h k.
      to₂ q h (omega arith)
      ∙ encode_uint16-before size d₁ (p + 2) q (omega arith)
      ∙ encode_uint16-before start page p q k in
    let high : SameFrom after page top = λ q k v.
      header-after d₃ header q (omega arith)
      ∙ copy-after d₂ start size q bytes (omega arith)
      ∙ encode_uint16-after size d₁ (p + 2) q (omega arith)
      ∙ encode_uint16-after start page p q (omega arith) in
    let at_start : decode_uint16 after p ≡ start =
      decode_uint16_at after d₁ p
        (to₂ p (omega arith) (omega arith) ∙ encode_uint16-before size d₁ (p + 2) p (omega arith))
        (to₂ (p + 1) (omega arith) (omega arith)
          ∙ encode_uint16-before size d₁ (p + 2) (p + 1) (omega arith))
      ∙ decode-encode_uint16 start page p (omega (arith, r.top)) in
    let at_size : decode_uint16 after (p + 2) ≡ size =
      decode_uint16_at after d₂ (p + 2) (to₂ (p + 2) (omega arith) (omega arith))
        (to₂ (p + 2 + 1) (omega arith) (omega arith))
      ∙ decode-encode_uint16 size d₁ (p + 2) (omega (arith, r.top)) in
    let s = header-start d₃ header (omega (arith, r.top)) in
    let e = header-end d₃ header (omega (arith, r.top)) in
    let len : length (ss ++ some bytes ∷ []) ≡ n + 1 =
      length-append ss (some bytes ∷ []) ∙ omega arith in
    let written : bytes_at after size start ≡ bytes = bytes_at-eq after bytes start (λ i k.
      header-after d₃ header (start + i) (omega arith) ∙ copy-inside d₂ start size i bytes k) in
    let old =
      Slots-cong after page top start 0 ss (omega (arith, r.top))
        (λ j k l q u v. low q (omega arith) (omega arith)) high (omega arith) r.slots in
    let new : SlotAt after start n (some bytes) =
      rw (here, at_start, at_size) (refl, omega arith, omega (arith, r.top), written) in
    (
      after,
      record { start_offset = start; size = size },
      rw (r.start, off, next, fit₁, fit₂, fit₃),
      record {
        start = s ∙ omega (arith, len);
        room = omega (arith, len, e);
        top = omega (arith, e, r.top);
        slots = rw e (Slots-snoc after start 0 ss (some bytes) old (rw (zero_add n) new));
      },
      rw (here, at_start, at_size),
    )

-- In a page with a slot of that number, `remove_tuple` leaves the page with the slot marked as
-- removed; all other slots stay.
pub remove_slot-Represents :
    (page : Buf) (pid slot_num : ℕ) (ss : List (Option (List ℕ)))
    → Represents page ss
    → slot_num < length ss
    → Represents (remove_slot page pid slot_num) (set ss slot_num none)
unfolding remove_slot construct_page_tuple_ptr extract_header extract_tuple_ptr
remove_slot-Represents page pid k ss r h =
    let top = decode_uint16 page 2 in
    let p = 5 + k * 4 % 4294967296 in
    let place : p ≡ 5 + 4 * k = omega (arith, r.room, r.top) in
    let size = decode_uint16 page (p + 2) in
    let d₁ = encode_uint16 0 page p in
    let d₂ = encode_uint16 size d₁ (p + 2) in
    let header : Header = record {
      id = pid;
      free_start = decode_uint16 page 0;
      free_end = top;
      flags = bit_or (page 4) 0x80;
    } in
    let after = construct_page_header_buf d₂ header in
    let to₂ : (q : ℕ) → 5 ≤ q → after q ≡ d₂ q = λ q l. header-after d₂ header q l in
    let same : (j : ℕ) → j < 1024 → j ≢ 0 + k → SamePtr after page j = λ j l ne q u v.
      to₂ q (omega arith)
      ∙ encode_uint16-other size d₁ (p + 2) q (omega (arith, ne, place))
      ∙ encode_uint16-other 0 page p q (omega (arith, ne, place)) in
    let high : SameFrom after page top = λ q l v.
      to₂ q (omega (arith, r.room))
      ∙ encode_uint16-after size d₁ (p + 2) q (omega (arith, r.room, place))
      ∙ encode_uint16-after 0 page p q (omega (arith, r.room, place)) in
    let gone : decode_uint16 after p ≡ 0 =
      decode_uint16_at after d₁ p
        (to₂ p (omega arith) ∙ encode_uint16-before size d₁ (p + 2) p (omega arith))
        (to₂ (p + 1) (omega arith) ∙ encode_uint16-before size d₁ (p + 2) (p + 1) (omega arith))
      ∙ decode-encode_uint16 0 page p (omega arith) in
    let s = header-start d₂ header (omega (arith, r.start, r.room, r.top)) in
    let e = header-end d₂ header (omega (arith, r.top)) in
    let len = length-set ss k none in
    record {
      start = s ∙ r.start ∙ omega (arith, len);
      room = omega (arith, len, e, r.room);
      top = omega (arith, e, r.top);
      slots = rw e (
          Slots-set after page top 0 k ss (omega (arith, r.room, r.top)) same high
            (rw (zero_add k) gone) r.slots);
    }

-- What a reader finds in a slot.
abbrev pub Reads : Buf → ℕ → Option (List ℕ) → Type 0
Reads page k none = get_slot page k ≡ none
Reads page k (some bytes) =
    (address : ℕ) × (get_slot page k ≡ some address)
    × (address + length bytes ≤ page_size)
    × (bytes_at page (length bytes) address ≡ bytes)

-- `get_tuple` gives NULL for a slot that was removed, and for a tuple an address in the page where
-- its bytes stand.
pub get_slot-Represents :
    (page : Buf) (slot_num : ℕ) (ss : List (Option (List ℕ))) (s : Option (List ℕ))
    → Represents page ss
    → get_elem? ss slot_num ≡ some s
    → Reads page slot_num s
unfolding get_slot
get_slot-Represents page k ss none r h =
    let gone = Slots-at page (decode_uint16 page 2) 0 k ss none h r.slots in
    rw (rw (zero_add k) at gone)
get_slot-Represents page k ss (some bytes) r h =
    let found = Slots-at page (decode_uint16 page 2) 0 k ss (some bytes) h r.slots in
    let slot = rw (zero_add k) at found in
    let there : ((extract_tuple_ptr page k).start_offset == 0) ≡ false =
      ground (arith, slot.1, r.room) in
    ((extract_tuple_ptr page k).start_offset, rw there, slot.2, slot.3)
