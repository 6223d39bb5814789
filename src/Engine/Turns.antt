-- ===== src/Engine/Turns.antt =====
-- src/interpreter/engine/turns.ts: logical turns and the unit of turns that waits for the contextual
-- lane. A promise that resolves at most once, with its settler, is the value it has resolved to.
pub mod Contextual
pub mod Queue
mod Tests
use asad.Base.{
  ℕ, ◌+◌, Bool, true, false, ◌&&◌, ◌||◌, Option, none, some, List, [], ◌∷◌, ◌++◌, map, ltb,
  if◌then◌else◌, length,
}
use asad.Base.Units.{Text}
use asad.Engine.Turns.Contextual.{ContextualState, queued}

pub data ProvisionalState : Type 0 where
  off pending applied failed superseded stale : ProvisionalState

-- `FlushBoundary`
pub data FlushBoundary : Type 0 where
  sentence quiet timeout clause : FlushBoundary

pub record LogicalTurn : Type 0 where
  pub id : ℕ
  pub text : Text
  pub stable_at : ℕ
  pub boundary : FlushBoundary
  pub continues_previous : Bool
  pub provisional : ProvisionalState
  pub contextual : ContextualState
  pub provisional_applied_at : Option ℕ
  pub provisional_settled : Option ProvisionalState

-- Resolving a promise that has resolved does nothing.
abbrev pub resolve : Option ProvisionalState → ProvisionalState → Option ProvisionalState
resolve none s = some s
resolve (some old) s = some old

-- The flag says that a fast lane will run for the turn.
unfoldable pub create_turn : ℕ → Text → ℕ → FlushBoundary → Bool → Bool → LogicalTurn
create_turn id text stable_at boundary continues_previous fast = record {
  id = id;
  text = text;
  stable_at = stable_at;
  boundary = boundary;
  continues_previous = continues_previous;
  provisional = if fast then pending else off;
  contextual = queued;
  provisional_applied_at = none;
  provisional_settled = if fast then none else resolve none off;
}

unfoldable pub settle_provisional : LogicalTurn → ProvisionalState → LogicalTurn
settle_provisional t s = record t {
  provisional = s;
  provisional_settled = resolve t.provisional_settled s;
}

abbrev pub max_coalesced_turns : ℕ
max_coalesced_turns = 6

abbrev pub max_coalesced_chars : ℕ
max_coalesced_chars = 3_500

abbrev pub chars : List LogicalTurn → ℕ
chars [] = 0
chars (t ∷ ts) = length t.text + 1 + chars ts

-- The test of the loop.
abbrev pub is_overfull : List LogicalTurn → Bool
is_overfull ts =
    ltb max_coalesced_turns (length ts) || (ltb 1 (length ts) && ltb max_coalesced_chars (chars ts))

pub record EnqueueResult : Type 0 where
  pub turns : List LogicalTurn
  pub dropped : List LogicalTurn

-- The loop: the first turn goes as long as there are too many.
unfoldable pub shed : List LogicalTurn → EnqueueResult
shed [] = record { turns = []; dropped = [] }
shed (t ∷ ts) =
    let rest = shed ts in
    if is_overfull (t ∷ ts)
    then record { turns = rest.turns; dropped = t ∷ rest.dropped }
    else record { turns = t ∷ ts; dropped = [] }

abbrev pub waiting_turns : Option (List LogicalTurn) → List LogicalTurn
waiting_turns none = []
waiting_turns (some ts) = ts

-- The waiting unit is its turns, if there is one.
unfoldable pub enqueue_contextual : Option (List LogicalTurn) → LogicalTurn → EnqueueResult
enqueue_contextual unit turn = shed (waiting_turns unit ++ turn ∷ [])

-- The texts, joined by a space.
unfoldable pub unit_text : List LogicalTurn → Text
unit_text [] = []
unit_text (t ∷ []) = t.text
unit_text (t ∷ u ∷ us) = t.text ++ 32 ∷ unit_text (u ∷ us)

abbrev pub unit_turn_ids : List LogicalTurn → List ℕ
unit_turn_ids = map (λ t. t.id)
