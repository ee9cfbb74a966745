-- ===== src/Utils/CircularList/Laws.antt =====
-- src/utils/circular_list.c: the size counts the nodes, and what a removal takes out.
use somedb.Base.{
  suc, ap, ◌∙◌, [], ℕ, ◌+◌, ◌-◌, ◌≤◌, ◌≡◌, refl, true, false, Option, none, some, List, ◌∷◌, length,
  arith, Bool-cases, inl, inr, ◌==◌, if◌then◌else◌,
}
use somedb.Sql.Token.{Text, text_eq}
use somedb.Utils.CircularList.{
  CircularList, circular_list_insert, circular_list_remove, walk, unlink, removed, destroy_from,
  circular_list_destroy,
}
use somedb.Utils.Hash.Chain.{text_eq_refl}

-- The size counts the nodes, and is at most the capacity.
pub record WellFormed (cl : CircularList) : Type 0 where
  pub counts : cl.size ≡ length cl.nodes
  pub bounded : cl.size ≤ cl.capacity

-- An insertion into a list whose size counts its nodes and is at most its capacity leaves such a
-- list, and its size grows by one exactly where a node was made.
circular_list_insert-WellFormed :
    (val : Option Text) (cl : CircularList)
    → WellFormed cl
    → WellFormed (circular_list_insert val cl).1
      × ((circular_list_insert val cl).1.size
          ≡ cl.size + (if (circular_list_insert val cl).0 then 1 else 0))
unfolding circular_list_insert
circular_list_insert-WellFormed none cl w = (w, omega arith)
circular_list_insert-WellFormed (some val) cl w = elim (Bool-cases (cl.size == cl.capacity)) [
  | inl e ↦ rw e (w, omega arith)
  | inr e ↦
      rw e
        (record { counts = omega (arith, w.counts); bounded = ground (arith, w.bounded, e) }, refl)
]

-- Where the head has another value, a removal takes the second node out, whatever its value is, and
-- reports success.
pub circular_list_remove-second :
    (capacity size : ℕ) (val head second : Text) (rest : List Text)
    → text_eq head val ≡ false
    → circular_list_remove val
        (record { capacity = capacity; size = size; nodes = head ∷ second ∷ rest })
      ≡ some (true, record { capacity = capacity; size = size - 1; nodes = head ∷ rest })
unfolding circular_list_remove walk unlink removed
circular_list_remove-second capacity size val head second rest h = rw h

circular_list_remove-head :
    (capacity : ℕ) (head : Text) (next : List Text)
    → circular_list_remove head
        (record { capacity = capacity; size = length (head ∷ next); nodes = head ∷ next })
      ≡ some (true, record { capacity = capacity; size = length next; nodes = next })
unfolding circular_list_remove removed
circular_list_remove-head capacity head next =
    let less : suc (length next) - 1 ≡ length next = omega arith in rw (text_eq_refl head, less)

destroy_from-all :
    (capacity : ℕ) (nodes : List Text)
    → destroy_from nodes (record { capacity = capacity; size = length nodes; nodes = nodes })
      ≡ some (record { capacity = capacity; size = 0; nodes = [] })
unfolding destroy_from
destroy_from-all capacity [] = refl
destroy_from-all capacity (head ∷ next) =
    rw (destroy_from, circular_list_remove-head capacity head next) (destroy_from-all capacity next)

-- A list whose size counts its nodes is empty, with a size of 0 and its old capacity, when it is destroyed.
circular_list_destroy-WellFormed :
    (cl : CircularList)
    → WellFormed cl
    → circular_list_destroy cl ≡ some (record { capacity = cl.capacity; size = 0; nodes = [] })
unfolding circular_list_destroy
circular_list_destroy-WellFormed cl w =
    ap
      (λ (n : ℕ).
        destroy_from cl.nodes (record { capacity = cl.capacity; size = n; nodes = cl.nodes }))
      w.counts
    ∙ destroy_from-all cl.capacity cl.nodes
