-- ===== src/Index/Page/Halves.antt =====
-- include/index/index_page.hpp: the halves of a vector that a split of a node takes.
use somedb.Base.{◌+◌, ◌/◌, ◌≡◌, true, false, List, ◌++◌, length, take-append-drop}
use somedb.Index.Page.{vec_first_half, vec_second_half}

-- The middle goes to one of the two halves: `vec_first_half` with it and `vec_second_half` without
-- it, or the other way round, give the whole vector back, in its order.
pub vec_first_half-second_half {ℓ} :
    {A : Type ℓ} (xs : List A)
    → (vec_first_half xs false ++ vec_second_half xs true ≡ xs)
      × (vec_first_half xs true ++ vec_second_half xs false ≡ xs)
unfolding vec_first_half vec_second_half
vec_first_half-second_half xs =
    (take-append-drop (length xs / 2 + 0) xs, take-append-drop (length xs / 2 + 1) xs)
