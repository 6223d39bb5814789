-- ===== src/Engine/Turns/Tests.antt =====
-- src/interpreter/engine/turns.ts: a queue that overflows.
use asad.Base.{ℕ, ◌+◌, ◌≤◌, ◌≡◌, refl, ◌⊎◌, true, false, some, List, [], ◌∷◌, ◌++◌, length}
use asad.Engine.Turns.{
  LogicalTurn, sentence, create_turn, shed, enqueue_contextual, unit_text, max_coalesced_turns,
  max_coalesced_chars,
}
use asad.Engine.Turns.Queue.{enqueue_contextual-bounded}

abbrev turn : ℕ → LogicalTurn
turn n = create_turn n (97 ∷ 98 ∷ []) n sentence false true

abbrev six : List LogicalTurn
six = turn 1 ∷ turn 2 ∷ turn 3 ∷ turn 4 ∷ turn 5 ∷ turn 6 ∷ []

first_goes : (enqueue_contextual (some six) (turn 7)).dropped ≡ turn 1 ∷ []
unfolding enqueue_contextual create_turn shed
first_goes = refl

enqueue_contextual-bounded_example :
    let r = enqueue_contextual (some six) (turn 7) in
    (r.dropped ++ r.turns ≡ six ++ turn 7 ∷ [])
    × ((init : List LogicalTurn) × (r.turns ≡ init ++ turn 7 ∷ []))
    × (length r.turns ≤ max_coalesced_turns)
    × ((r.turns ≡ turn 7 ∷ []) ⊎ (length (unit_text r.turns) + 1 ≤ max_coalesced_chars))
enqueue_contextual-bounded_example = enqueue_contextual-bounded (some six) (turn 7)
