-- ===== src/Index/Serial/Written.antt =====
-- src/index/index_page.cpp: `serialize` stores the entries of a node in the page.
use somedb.Base.{
  ℕ, suc, ◌+◌, ◌-◌, ◌%◌, ◌<◌, ◌≤◌, ◌≡◌, refl, sym, ap, ap₂, ◌∙◌, ltb, leb, true, List, [], ◌∷◌,
  length, get_or, arith,
}
use somedb.Index.Codec.{Codec, AgreeFrom}
use somedb.Index.Page.Shift.{Entry}
use somedb.Index.Serial.{copy, bytes_at, write_entry}
use somedb.Index.Serial.Stored.{FitsEntry, entry_size, Stored, Stored-cong}
use somedb.Utils.Serialize.{Buf, store, encode_uint16}
use somedb.Utils.Serialize.Laws.{encode_uint16-bytes}

pub bytes_at-eq :
    (buf : Buf) (src : List ℕ) (p : ℕ)
    → ((i : ℕ) → i < length src → buf (p + i) ≡ get_or src i 0)
    → bytes_at buf (length src) p ≡ src
unfolding bytes_at
bytes_at-eq buf [] p h = refl
bytes_at-eq buf (c ∷ src) p h =
    let z : p + 0 ≡ p = omega arith in
    let here : buf p ≡ c = ap buf (sym z) ∙ h 0 (omega arith) in
    let rest =
      bytes_at-eq buf src (p + 1)
        λ i k. let e : p + 1 + i ≡ p + suc i = omega arith in ap buf e ∙ h (suc i) (omega arith) in
    ap₂ ◌∷◌ here rest

pub copy-inside :
    (buf : Buf) (p n i : ℕ) (src : List ℕ) → i < n → copy buf p n src (p + i) ≡ get_or src i 0
unfolding copy
copy-inside buf p n i src h =
    let in₁ : leb p (p + i) ≡ true = ground arith in
    let in₂ : ltb (p + i) (p + n) ≡ true = ground arith in
    let e : p + i - p ≡ i = omega arith in rw (in₁, in₂, e)

pub copy-after : (buf : Buf) (p n q : ℕ) (src : List ℕ) → p + n ≤ q → copy buf p n src q ≡ buf q
unfolding copy
copy-after buf p n q src h = ground arith

pub copy-before : (buf : Buf) (p n q : ℕ) (src : List ℕ) → q < p → copy buf p n src q ≡ buf q
unfolding copy
copy-before buf p n q src h = ground arith

pub store_self : (buf : Buf) (p v : ℕ) → v < 256 → store buf p v p ≡ v
unfolding store
store_self buf p v h = ground arith

pub store-after : (buf : Buf) (p v q : ℕ) → p < q → store buf p v q ≡ buf q
unfolding store
store-after buf p v q h = ground arith

pub encode_uint16-after :
    (w : ℕ) (buf : Buf) (p q : ℕ) → p + 2 ≤ q → encode_uint16 w buf p q ≡ buf q
encode_uint16-after w buf p q h = ground (arith, encode_uint16-bytes w buf p q)

module _ {V : Type 0} (codec : Codec V) where
  -- The writes of one entry at `kv`, before its pointer is written.
  abbrev entry_body : Entry V → Buf → ℕ → Buf
  entry_body e buf kv =
      codec.write e.1 (copy (store buf kv e.0.size) (kv + 1) e.0.size e.0.bytes) (kv + 1 + e.0.size)

  entry_body-after :
      (e : Entry V) (buf : Buf) (kv q : ℕ)
      → kv + entry_size codec e ≤ q
      → entry_body e buf kv q ≡ buf q
  entry_body-after e buf kv q h =
      codec.write_outside e.1 (copy (store buf kv e.0.size) (kv + 1) e.0.size e.0.bytes)
        (kv + 1 + e.0.size) q (omega arith)
      ∙ copy-after (store buf kv e.0.size) (kv + 1) e.0.size q e.0.bytes (omega arith)
      ∙ store-after buf kv e.0.size q (omega arith)

  entry_body-Stored :
      (e : Entry V) (es : List (Entry V)) (buf : Buf) (kv p : ℕ)
      → FitsEntry codec e
      → kv + entry_size codec e ≡ p
      → Stored codec buf p es
      → Stored codec (entry_body e buf kv) kv (e ∷ es)
  entry_body-Stored e es buf kv p fit hp s =
      let mid = copy (store buf kv e.0.size) (kv + 1) e.0.size e.0.bytes in
      let before : (q : ℕ) → q < kv + 1 + e.0.size → entry_body e buf kv q ≡ mid q =
        λ q h. codec.write_before e.1 mid (kv + 1 + e.0.size) q h in
      let len : entry_body e buf kv kv ≡ e.0.size =
        before kv (omega arith)
        ∙ copy-before (store buf kv e.0.size) (kv + 1) e.0.size kv e.0.bytes (omega arith)
        ∙ store_self buf kv e.0.size fit.short in
      let key : bytes_at (entry_body e buf kv) e.0.size (kv + 1) ≡ e.0.bytes =
        ap (λ (n : ℕ). bytes_at (entry_body e buf kv) n (kv + 1)) (sym fit.whole)
        ∙ bytes_at-eq (entry_body e buf kv) e.0.bytes (kv + 1) (λ i h.
          before (kv + 1 + i) (omega (arith, fit.whole))
          ∙ copy-inside (store buf kv e.0.size) (kv + 1) e.0.size i e.0.bytes
              (omega (arith, fit.whole))) in
      (
        len,
        key,
        codec.read-write e.1 mid (kv + 1 + e.0.size) fit.value,
        rw hp (
            Stored-cong codec (entry_body e buf kv) buf p es
              (λ q h. entry_body-after e buf kv q (omega arith)) s),
      )

  -- The page after the writes of one entry at `kv`, its pointer at `start`.
  abbrev pub with_entry : Entry V → Buf → ℕ → ℕ → Buf
  with_entry e buf start kv =
      encode_uint16 (entry_size codec e) (encode_uint16 kv (entry_body e buf kv) start) (start + 2)

  pub write_entry-eq :
      (e : Entry V) (buf : Buf) (start p kv : ℕ)
      → kv + entry_size codec e ≡ p
      → p ≤ 4096
      → start + 4 ≤ p
      → write_entry codec e.0 e.1 (buf, start, p) ≡ (with_entry e buf start kv, start + 4, kv)
  unfolding write_entry
  write_entry-eq e buf start p kv h top room =
      let size : (codec.width + e.0.size + 1) % 65536 ≡ entry_size codec e = omega arith in
      let place : (p + 65536 - entry_size codec e) % 65536 ≡ kv = omega arith in
      let next : (start + 4) % 65536 ≡ start + 4 = omega arith in rw (size, place, next)

  -- One entry is put in front of those that are stored.
  pub with_entry-Stored :
      (e : Entry V) (es : List (Entry V)) (buf : Buf) (start p kv : ℕ)
      → FitsEntry codec e
      → kv + entry_size codec e ≡ p
      → start + 4 ≤ kv
      → Stored codec buf p es
      → Stored codec (with_entry e buf start kv) kv (e ∷ es)
  with_entry-Stored e es buf start p kv fit h room s =
      let d₃ = entry_body e buf kv in
      let d₄ = encode_uint16 kv d₃ start in
      let agree : AgreeFrom kv (with_entry e buf start kv) d₃ = λ q k.
        encode_uint16-after (entry_size codec e) d₄ (start + 2) q (omega arith)
        ∙ encode_uint16-after kv d₃ start q (omega arith) in
      Stored-cong codec (with_entry e buf start kv) d₃ kv (e ∷ es) agree
        (entry_body-Stored e es buf kv p fit h s)
