-- ===== src/Index/Serial/Stored.antt =====
-- src/index/index_page.cpp: what it is for entries to stand in a page, and how they are read.
use somedb.Base.{
  ℕ, zero, suc, ◌+◌, ◌%◌, ◌<◌, ◌≡◌, refl, ◌∙◌, ◌==◌, ltb, Bool, true, false, some, List, [], ◌∷◌,
  length, arith,
}
use somedb.Index.Codec.{Codec, AgreeFrom, AgreeIn}
use somedb.Index.Page.Shift.{Entry, keys_of, values_of}
use somedb.Index.Serial.{page_size, bytes_at, read_entries}
use somedb.Utils.Serialize.{Buf}

pub bytes_at_cong : (a b : Buf) (n p : ℕ) → AgreeIn p (p + n) a b → bytes_at a n p ≡ bytes_at b n p
unfolding bytes_at
bytes_at_cong a b zero p h = refl
bytes_at_cong a b (suc n) p h = rw (
  h p (omega arith) (omega arith),
  bytes_at_cong a b n (p + 1) (λ q k l. h q (omega arith) (omega arith)),
)

module _ {V : Type 0} (codec : Codec V) where
  -- A key of 1 to 255 bytes, all there, and a value in its range.
  pub record FitsEntry (e : Entry V) : Type 0 where
    pub nonempty : 0 < e.0.size
    pub short : e.0.size < 256
    pub whole : length e.0.bytes ≡ e.0.size
    pub value : codec.Fits e.1

  abbrev pub entry_size : Entry V → ℕ
  entry_size e = 1 + e.0.size + codec.width

  abbrev pub total_size : List (Entry V) → ℕ
  total_size [] = 0
  total_size (e ∷ es) = entry_size e + total_size es

  abbrev pub AllFit : List (Entry V) → Type 0
  AllFit [] = Unit
  AllFit (e ∷ es) = FitsEntry e × AllFit es

  -- The entries stand one after another from `p` to the end of the page.
  abbrev pub Stored : Buf → ℕ → List (Entry V) → Type 0
  Stored buf p [] = p ≡ page_size
  Stored buf p (e ∷ es) =
      (buf p ≡ e.0.size)
      × (bytes_at buf e.0.size (p + 1) ≡ e.0.bytes)
      × (codec.read buf (p + 1 + e.0.size) ≡ e.1)
      × Stored buf (p + entry_size e) es

  -- Entries that fill a page to its end stand in every memory with the same bytes of the page.
  pub Stored-page :
      (a b : Buf) (p : ℕ) (es : List (Entry V))
      → p + total_size es ≡ page_size
      → AgreeIn p page_size a b
      → Stored b p es
      → Stored a p es
  Stored-page a b p [] t h s = s
  Stored-page a b p (e ∷ es) t h s = (
    h p (omega arith) (omega (arith, t)) ∙ s.0,
    bytes_at_cong a b e.0.size (p + 1) (λ q k l. h q (omega arith) (omega (arith, t))) ∙ s.1,
    codec.read_cong a b (p + 1 + e.0.size) (λ q k l. h q (omega arith) (omega (arith, t))) ∙ s.2,
    Stored-page a b (p + entry_size e) es (omega (arith, t)) (λ q k l. h q (omega arith) l) s.3,
  )

  -- A write in front of the entries leaves them there.
  pub Stored-cong :
      (a b : Buf) (p : ℕ) (es : List (Entry V)) → AgreeFrom p a b → Stored b p es → Stored a p es
  Stored-cong a b p [] h s = s
  Stored-cong a b p (e ∷ es) h s = (
    h p (omega arith) ∙ s.0,
    bytes_at_cong a b e.0.size (p + 1) (λ q k l. h q (omega arith)) ∙ s.1,
    codec.read_cong a b (p + 1 + e.0.size) (λ q k l. h q (omega arith)) ∙ s.2,
    Stored-cong a b (p + entry_size e) es (λ q k. h q (omega arith)) s.3,
  )

  -- The loop of the constructor reads the entries, and ends.
  pub read_entries-Stored :
      (fuel : ℕ) (is_leaf : Bool) (buf : Buf) (p : ℕ) (es : List (Entry V))
      → Stored buf p es
      → AllFit es
      → p + total_size es ≡ page_size
      → length es < fuel
      → read_entries codec fuel is_leaf buf p ≡ some (keys_of es, values_of es)
  unfolding read_entries
  read_entries-Stored zero is_leaf buf p es s fit t h = absurd (omega arith)
  read_entries-Stored (suc fuel) is_leaf buf p [] s fit t h =
      let done : ltb p 4096 ≡ false = ground arith in rw done
  read_entries-Stored (suc fuel) is_leaf buf p (e ∷ es) s fit t h =
      let inside : ltb p 4096 ≡ true = ground arith in
      let long : (e.0.size == 0) ≡ false = ground (arith, fit.0.nonempty) in
      let v : (p + 1 + e.0.size) % 65536 ≡ p + 1 + e.0.size = omega arith in
      let n : (p + 1 + e.0.size + codec.width) % 65536 ≡ p + entry_size e = omega arith in
      rw (inside, s.0, long, v, n, s.1, s.2)
        (rw (
          read_entries-Stored fuel is_leaf buf (p + entry_size e) es s.3 fit.1 (omega arith)
            (omega arith)))
