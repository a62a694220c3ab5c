-- ===== src/Tests/Links.antt =====
-- lib/linked_list.h: the macros on lists of three nodes.
use pennos.Base.{ℕ, ◌≡◌, refl, true, false, [], ◌∷◌, none, some, arith, ◌==◌, if◌then◌else◌, has}
use pennos.Base.Returns.{Returns}
use pennos.Links.{Node, Store, linked_list_push_tail, linked_list_remove, linked_list_clear}
use pennos.Links.Segment.{Represents}
use pennos.Links.Push.{push_tail-Represents}
use pennos.Links.Remove.{remove-Represents}
use pennos.Links.Walk.{linked_list_clear-Cleared}

abbrev nodes : ℕ → Node
nodes p =
    if p == 1
    then record { prev = none; next = some 2 }
    else if p == 2
    then record { prev = some 1; next = some 3 }
    else if p == 3
    then record { prev = some 2; next = none }
    else record { prev = none; next = none }

-- The list 1, 2, 3.
abbrev three : Store
three = record { node = nodes; head = some 1; tail = some 3; has_dtor = true; destroyed = [] }

three-Represents : Represents three (1 ∷ 2 ∷ 3 ∷ [])
three-Represents = record {
  head = refl;
  tail = refl;
  links = (refl, refl, (refl, refl, (refl, refl, tt)));
  distinct = refl;
}

push_tail-Represents_example :
    Returns (λ _ t. Represents t (1 ∷ 2 ∷ 3 ∷ 4 ∷ [])) (linked_list_push_tail 4 three)
push_tail-Represents_example = push_tail-Represents three 4 (1 ∷ 2 ∷ 3 ∷ []) three-Represents refl

remove-Represents_example : Returns (λ _ t. Represents t (1 ∷ 3 ∷ [])) (linked_list_remove 2 three)
remove-Represents_example = remove-Represents three 2 (1 ∷ 2 ∷ 3 ∷ []) three-Represents refl

linked_list_clear-Cleared_example :
    Returns
      (λ _ t.
        Represents t []
        × ((x : ℕ) → has x (1 ∷ 2 ∷ 3 ∷ []) ≡ true → t.node x ≡ record { prev = none; next = none })
        × ((x : ℕ) → has x (1 ∷ 2 ∷ 3 ∷ []) ≡ false → t.node x ≡ nodes x))
      (linked_list_clear 3 three)
linked_list_clear-Cleared_example =
    linked_list_clear-Cleared three (1 ∷ 2 ∷ 3 ∷ []) 3 three-Represents (omega arith)
