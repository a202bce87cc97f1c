-- ===== src/Tests/Dinner.antt =====
-- A symposium of three philosophers, in which the first eats and the second waits.
use tiny_os.Prelude.{◌≡◌, refl, true, false, ◌||◌, ◌&&◌, arith}
use tiny_os.Symposium.{
  is_eating, SymposiumTable, left, right, arrive, ask, initial, arrives, asks, Reaches, here, after,
  trytoeat, finish, move_to, dining,
}
use tiny_os.Symposium.Reach.{neighbours_apart, hungry_blocked}

abbrev seated : SymposiumTable
seated = arrive 1 (arrive 0 (initial 3 2))

abbrev both_asked : SymposiumTable
both_asked = ask 1 (ask 0 seated)

dinner : Reaches (initial 3 2) both_asked
unfolding initial arrive ask trytoeat left right
dinner =
    after
      (after (after (after here (arrives 0 (omega arith) refl)) (arrives 1 (omega arith) refl))
        (asks 0 1 (omega arith) refl refl))
      (asks 1 1 (omega arith) refl refl)

-- When the first has eaten, the second is waked.
second_eats : is_eating ((finish 0 1 (move_to 0 dining both_asked)).state 1) ≡ true
unfolding initial arrive ask trytoeat left right finish
second_eats = refl

neighbours_apart_example :
    (is_eating (both_asked.state 0) && is_eating (both_asked.state (left 0 both_asked.n))) ≡ false
unfolding initial arrive ask trytoeat left right
neighbours_apart_example = neighbours_apart 3 2 dinner 0 (omega arith) refl

hungry_blocked_example :
    (is_eating (both_asked.state (left 1 both_asked.n))
      || is_eating (both_asked.state (right 1 both_asked.n)))
    ≡ true
unfolding initial arrive ask trytoeat left right
hungry_blocked_example = hungry_blocked 3 2 dinner 1 (omega arith) refl
