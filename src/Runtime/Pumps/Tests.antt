-- ===== src/Runtime/Pumps/Tests.antt =====
-- The pumps of runtime/task_manager.go in a few steps.
use zoa.Base.{ℕ, ◌≡◌, refl, true, List, [], ◌∷◌, ◌==◌, map}
use zoa.Base.Text.{codes, trim, trim_left, is_space}
use zoa.Runtime.Pumps.{
  looping, stopped, no_pumps, Move, start, finish, register, replace_pump, register_checked, moves,
}
use zoa.Runtime.Pumps.Exclusive.{Exclusive, moves-Exclusive}

abbrev twice : List (Move ℕ)
twice =
    register (codes "gateway") (codes "gateway.pump") 5 true 1
    ∷ start 0
    ∷ register (codes " gateway") (codes "gateway.pump") 5 true 2
    ∷ start 1
    ∷ finish 0
    ∷ start 1
    ∷ []

one_loop : map (λ r. r.phase) (moves ◌==◌ twice no_pumps).runners ≡ looping ∷ stopped ∷ []
unfolding moves register_checked replace_pump trim trim_left is_space
one_loop = refl

moves-Exclusive_example : Exclusive (moves ◌==◌ twice no_pumps).runners
moves-Exclusive_example = moves-Exclusive ◌==◌ twice
