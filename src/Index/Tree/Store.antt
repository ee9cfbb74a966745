-- ===== src/Index/Tree/Store.antt =====
-- include/index/btree_index.hpp: how the tree reaches its pages: `fetch_bpm_page` with the
-- constructor of a node, `flush_node` with `serialize`, and `new_btree_index_page`. The program's
-- instance is in Index.Tree.Pool.
use somedb.Base.{ℕ, ◌≡◌, refl, sym, ap, ◌∙◌, Bool, Option, none, some, List, [], ◌∷◌, ◌++◌}
use somedb.Index.Page.{BTreePage, ◌>>=◌}
use somedb.Index.Tree.{BTree}

-- `none` is undefined behaviour, or the end of the program.
pub record NodeStore : Type 1 where
  pub Store : Type 0
  pub fetch : ℕ → Store → Option (BTreePage × Store)
  pub flush : ℕ → BTreePage → Store → Option Store
  pub flush_metadata : BTree → Store → Option Store
  pub new_node : Bool → Store → Option (ℕ × Store)

module _ {A B : Type 0} where
  pub >>=-same : (m : Option A) (f g : A → Option B) → ((a : A) → f a ≡ g a) → (m >>= f) ≡ (m >>= g)
  >>=-same none f g h = refl
  >>=-same (some a) f g h = h a

  pub >>=-assoc :
      {C : Type 0} (m : Option A) (f : A → Option B) (g : B → Option C)
      → ((m >>= f) >>= g) ≡ (m >>= λ a. f a >>= g)
  >>=-assoc none f g = refl
  >>=-assoc (some a) f g = refl

>>=-unit : {A : Type 0} (m : Option A) → (m >>= some) ≡ m
>>=-unit none = refl
>>=-unit (some a) = refl

module _ (nodes : NodeStore) where
  -- These nodes, flushed one after the other.
  abbrev pub flush_all : List (ℕ × BTreePage) → nodes.Store → Option nodes.Store
  flush_all [] s = some s
  flush_all ((pid, node) ∷ writes) s = nodes.flush pid node s >>= flush_all writes

  pub flush_all-last :
      (writes : List (ℕ × BTreePage)) (pid : ℕ) (node : BTreePage) (s : nodes.Store)
      → flush_all (writes ++ (pid, node) ∷ []) s ≡ (flush_all writes s >>= nodes.flush pid node)
  flush_all-last [] pid node s = >>=-unit (nodes.flush pid node s)
  flush_all-last ((q, n) ∷ writes) pid node s =
      >>=-same (nodes.flush q n s) _ _ (λ s'. flush_all-last writes pid node s')
      ∙ sym (>>=-assoc (nodes.flush q n s) (flush_all writes) (nodes.flush pid node))

  -- Three nodes, flushed one after the other, and what follows.
  pub flush_all-three :
      {C : Type 0} (p₁ p₂ p₃ : ℕ) (n₁ n₂ n₃ : BTreePage) (s : nodes.Store)
      (f : nodes.Store → Option C)
      → (flush_all ((p₁, n₁) ∷ (p₂, n₂) ∷ (p₃, n₃) ∷ []) s >>= f)
        ≡ (nodes.flush p₁ n₁ s >>= λ s₁. nodes.flush p₂ n₂ s₁ >>= λ s₂. nodes.flush p₃ n₃ s₂ >>= f)
  flush_all-three p₁ p₂ p₃ n₁ n₂ n₃ s f =
      >>=-assoc (nodes.flush p₁ n₁ s) (flush_all ((p₂, n₂) ∷ (p₃, n₃) ∷ [])) f
      ∙ >>=-same (nodes.flush p₁ n₁ s) _ _ (λ s₁.
        >>=-assoc (nodes.flush p₂ n₂ s₁) (flush_all ((p₃, n₃) ∷ [])) f
        ∙ >>=-same (nodes.flush p₂ n₂ s₁) _ _
            (λ s₂. ap (λ (m : Option nodes.Store). m >>= f) (>>=-unit (nodes.flush p₃ n₃ s₂))))
