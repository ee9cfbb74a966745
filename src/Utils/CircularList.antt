-- ===== src/Utils/CircularList.antt =====
-- src/utils/circular_list.c: the list of the clock replacer. The nodes are the values from the head
-- on, and a node is its position. A pointer that is NULL is `none`, and to read through it is
-- undefined: `circular_list_remove` then returns `none`.
pub mod Laws
use somedb.Base.{
  ℕ, zero, suc, ◌+◌, ◌-◌, ◌==◌, Bool, true, false, Option, none, some, List, [], ◌∷◌, ◌++◌, length,
  if◌then◌else◌,
}
use somedb.Sql.Token.{Text, text_eq}

pub record CircularList : Type 0 where
  pub capacity : ℕ
  pub size : ℕ
  pub nodes : List Text

unfoldable pub circular_list_init : ℕ → CircularList
circular_list_init capacity = record { capacity = capacity; size = 0; nodes = [] }

unfoldable pub circular_list_next : ℕ → CircularList → Option ℕ
circular_list_next curr cl =
    if cl.size == 0 then none else if curr + 1 == length cl.nodes then some 0 else some (curr + 1)

-- Whether a node was made, which is then the head.
unfoldable pub circular_list_insert : Option Text → CircularList → Bool × CircularList
circular_list_insert none cl = (false, cl)
circular_list_insert (some val) cl =
    if cl.size == cl.capacity
    then (false, cl)
    else (true, record cl { nodes = val ∷ cl.nodes; size = cl.size + 1 })

-- `while (curr != NULL && are_equal(cl->head->value, node_val))`: the nodes up to `prev`, and those
-- from `curr` on. The head, and so the test, is the same in every round.
unfoldable pub walk : Bool → List Text → List Text → List Text × List Text
walk is_equal before [] = (before, [])
walk is_equal before (curr ∷ next) =
    let rest = walk is_equal (before ++ curr ∷ []) next in
    if is_equal then rest else (before, curr ∷ next)

-- `prev->next = curr->next`
unfoldable pub unlink : List Text × List Text → Option (List Text)
unlink (before, []) = none
unlink (before, curr ∷ next) = some (before ++ next)

unfoldable pub removed : CircularList → Option (List Text) → Option (Bool × CircularList)
removed cl none = none
removed cl (some nodes) = some (true, record cl { nodes = nodes; size = cl.size - 1 })

unfoldable pub circular_list_remove : Text → CircularList → Option (Bool × CircularList)
circular_list_remove node_val cl = elim cl.nodes [
  | [] ↦ some (false, cl)
  | head ∷ next ↦
      if text_eq head node_val
      then removed cl (some next)
      else removed cl (unlink (walk (text_eq head node_val) (head ∷ []) next))
]

-- The loop, by the nodes that `curr` has before it: the node that is removed is the head in every
-- round.
unfoldable pub destroy_from : List Text → CircularList → Option CircularList
destroy_from [] cl = some cl
destroy_from (temp ∷ curr) cl = elim (circular_list_remove temp cl) [
  | none ↦ none
  | some (success, cl') ↦ destroy_from curr cl'
]

unfoldable pub circular_list_destroy : CircularList → Option CircularList
circular_list_destroy cl = destroy_from cl.nodes cl
