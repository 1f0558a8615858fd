-- ===== src/Broker/Subscribers.antt =====
-- The set of the subscribers.
use ducks.Prelude.{ℕ, ◌≡◌, false, ◌||◌, List, [], ◌∷◌, eqb, if◌then◌else◌, arith}
use ducks.Broker.{member, add_sub, remove_sub, Distinct}

pub member-remove_sub :
    (ch j : ℕ) (xs : List ℕ)
    → member j (remove_sub ch xs) ≡ (if eqb ch j then false else member j xs)
unfolding member remove_sub
member-remove_sub ch j [] = ground arith
member-remove_sub ch j (x ∷ xs) = ground (arith, member-remove_sub ch j xs)

pub remove_sub-Distinct : (ch : ℕ) (xs : List ℕ) → Distinct xs → Distinct (remove_sub ch xs)
unfolding remove_sub
remove_sub-Distinct ch [] d = tt
remove_sub-Distinct ch (x ∷ xs) d =
    ground (arith, remove_sub-Distinct ch xs d.1, member-remove_sub ch x xs)

pub add_sub-Distinct : (ch : ℕ) (xs : List ℕ) → Distinct xs → Distinct (add_sub ch xs)
unfolding add_sub
add_sub-Distinct ch xs d = ground arith

pub member-add_sub : (ch j : ℕ) (xs : List ℕ) → member j (add_sub ch xs) ≡ (eqb ch j || member j xs)
unfolding add_sub member
member-add_sub ch j xs = ground arith
