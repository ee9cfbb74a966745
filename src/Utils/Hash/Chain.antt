-- ===== src/Utils/Hash/Chain.antt =====
-- src/utils/hash.c: what the operations do to a chain whose keys are all there.
use somedb.Base.{
  ◌≡◌, refl, sym, ap₂, ◌∙◌, subst, ◌==◌, ==_iff, Bool, true, false, Option, none, some, List, [],
  ◌∷◌, if◌then◌else◌, Bool-cases, inl, inr, arith,
}
use somedb.Sql.Token.{Text, text_eq}
use somedb.Utils.Hash.{HashEl, live, insert_chain, find_chain, remove_next}

pub text_eq_refl : (s : Text) → text_eq s s ≡ true
unfolding text_eq
text_eq_refl [] = refl
text_eq_refl (c ∷ s) = let e : (c == c) ≡ true = ground arith in rw (e, text_eq_refl s)

pub text_eq_sound : (s t : Text) → text_eq s t ≡ true → s ≡ t
unfolding text_eq
text_eq_sound [] [] h = refl
text_eq_sound [] (d ∷ t) h = cc
text_eq_sound (c ∷ s) [] h = cc
text_eq_sound (c ∷ s) (d ∷ t) h = elim (Bool-cases (c == d)) [
  | inr e ↦ let k : false ≡ true = rw e at h in cc
  | inl e ↦
      let k : text_eq s t ≡ true = rw e at h in ap₂ ◌∷◌ ((==_iff c d).0 e) (text_eq_sound s t k)
]

-- Entries of a chain: its elements, with keys that are not freed.
module _ {ℓ} {V : Type ℓ} where
  abbrev pub chain_of : List (Text × V) → List (HashEl V)
  chain_of [] = []
  chain_of (e ∷ es) = live e.0 e.1 ∷ chain_of es

  -- The value of the first entry with a key.
  abbrev pub lookup : Text → List (Text × V) → Option V
  lookup key [] = none
  lookup key (e ∷ es) = if text_eq e.0 key then some e.1 else lookup key es

  abbrev pub insert : Text → V → List (Text × V) → List (Text × V)
  insert key val [] = (key, val) ∷ []
  insert key val (e ∷ es) = if text_eq e.0 key then (key, val) ∷ es else e ∷ insert key val es

  pub find_chain-lookup :
      (key : Text) (es : List (Text × V)) → find_chain key (chain_of es) ≡ some (lookup key es)
  unfolding find_chain
  find_chain-lookup key [] = refl
  find_chain-lookup key (e ∷ es) = elim (Bool-cases (text_eq e.0 key)) [
    | inl h ↦ rw h
    | inr h ↦ rw (h, find_chain-lookup key es)
  ]

  pub insert_chain-insert :
      (key : Text) (val : V) (es : List (Text × V))
      → insert_chain key val (chain_of es) ≡ some (chain_of (insert key val es))
  unfolding insert_chain
  insert_chain-insert key val [] = refl
  insert_chain-insert key val (e ∷ es) = elim (Bool-cases (text_eq e.0 key)) [
    | inl h ↦ rw h
    | inr h ↦ rw (h, insert_chain-insert key val es)
  ]

  pub lookup-insert :
      (key : Text) (val : V) (es : List (Text × V)) (other : Text)
      → lookup other (insert key val es) ≡ (if text_eq key other then some val else lookup other es)
  lookup-insert key val [] other = refl
  lookup-insert key val (e ∷ es) other = elim (Bool-cases (text_eq e.0 key)) [
    | inl h ↦ let k = text_eq_sound e.0 key h in rw h (rw k (both (text_eq key other)))
    | inr h ↦ elim (Bool-cases (text_eq key other)) [
      | inr n ↦ rw (h, lookup-insert key val es other, n)
      | inl y ↦
          let k = text_eq_sound key other y in
          let away : text_eq e.0 other ≡ false = subst (λ t. text_eq e.0 t ≡ false) k h in
          rw (h, away, lookup-insert key val es other, y)
    ]
  ]
    where
      both :
          (b : Bool)
          → (if b then some val else lookup other es)
            ≡ (if b then some val else if b then some e.1 else lookup other es)
      both true = refl
      both false = refl

  abbrev pub erase : Text → List (Text × V) → List (Text × V)
  erase key [] = []
  erase key (e ∷ es) = if text_eq e.0 key then es else e ∷ erase key es

  abbrev pub has_key : Text → List (Text × V) → Bool
  has_key key [] = false
  has_key key (e ∷ es) = if text_eq e.0 key then true else has_key key es

  -- No key stands twice.
  abbrev pub Distinct : List (Text × V) → Type 0
  Distinct [] = Unit
  Distinct (e ∷ es) = (has_key e.0 es ≡ false) × Distinct es

  pub remove_next-erase :
      (key : Text) (es : List (Text × V))
      → remove_next key (chain_of es) ≡ some (chain_of (erase key es), has_key key es)
  unfolding remove_next
  remove_next-erase key [] = refl
  remove_next-erase key (e ∷ es) = elim (Bool-cases (text_eq e.0 key)) [
    | inl h ↦ rw h
    | inr h ↦ rw (h, remove_next-erase key es)
  ]

  lookup-absent :
      (key : Text) (es : List (Text × V)) → has_key key es ≡ false → lookup key es ≡ none
  lookup-absent key [] h = refl
  lookup-absent key (e ∷ es) h = elim (Bool-cases (text_eq e.0 key)) [
    | inl y ↦ let k : true ≡ false = rw y at h in cc
    | inr n ↦ let k : has_key key es ≡ false = rw n at h in rw n (lookup-absent key es k)
  ]

  pub lookup-erase :
      (key other : Text) (es : List (Text × V))
      → Distinct es
      → lookup other (erase key es) ≡ (if text_eq key other then none else lookup other es)
  lookup-erase key other [] d = elim (Bool-cases (text_eq key other)) [
    | inl h ↦ rw h
    | inr h ↦ rw h
  ]
  lookup-erase key other (e ∷ es) d = elim (Bool-cases (text_eq e.0 key)) [
    | inl h ↦
        let k = text_eq_sound e.0 key h in
        elim (Bool-cases (text_eq key other)) [
          | inl y ↦
              let o : e.0 ≡ other = k ∙ text_eq_sound key other y in
              let gone : has_key other es ≡ false = subst (λ t. has_key t es ≡ false) o d.0 in
              rw (h, y) (lookup-absent other es gone)
          | inr n ↦
              let away : text_eq e.0 other ≡ false =
                subst (λ t. text_eq t other ≡ false) (sym k) n in
              rw (h, n, away)
        ]
    | inr h ↦ elim (Bool-cases (text_eq key other)) [
      | inl y ↦
          let away : text_eq e.0 other ≡ false =
            subst (λ t. text_eq e.0 t ≡ false) (text_eq_sound key other y) h in
          rw (h, away, lookup-erase key other es d.1, y)
      | inr n ↦ rw (h, lookup-erase key other es d.1, n)
    ]
  ]
