-- ===== src/Messages/Ring.antt =====
-- When the items form a ring in the order of a list of addresses.
use lesch_os.Base.{ℕ, suc, ◌≡◌, ◌≢◌, List, [], ◌∷◌, length, All}
use lesch_os.Messages.{Nodes, MsgList}

-- From `a` the items go through `xs` to `b`, and back.
unfoldable pub Linked : Nodes → (a : ℕ) → List ℕ → (b : ℕ) → Type 0
Linked nodes a [] b = ((nodes a).next ≡ b) × ((nodes b).prev ≡ a)
Linked nodes a (x ∷ xs) b = ((nodes a).next ≡ x) × ((nodes x).prev ≡ a) × Linked nodes x xs b

-- `a` is none of them.
unfoldable pub Absent : ℕ → List ℕ → Type 0
Absent a xs = All (λ x. a ≢ x) xs

unfoldable pub Different : List ℕ → Type 0
Different [] = Unit {0}
Different (x ∷ xs) = Absent x xs × Different xs

-- The list holds the messages at `xs`, in this order.
unfoldable pub Holds : MsgList → List ℕ → Type 0
Holds s [] = (s.first ≡ 0) × (s.count ≡ 0)
Holds s (x ∷ xs) =
    (s.first ≡ x)
    × (s.count ≡ suc (length xs))
    × Absent 0 (x ∷ xs)
    × Different (x ∷ xs)
    × Linked s.nodes x xs x
