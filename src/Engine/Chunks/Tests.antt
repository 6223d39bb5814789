-- ===== src/Engine/Chunks/Tests.antt =====
-- src/interpreter/engine/chunks.ts: a provisional line of a fast lane, refined and committed. The
-- texts hold no upper case.
use asad.Base.{ℕ, drop, true, false, none, List, [], ◌∷◌}
use asad.Base.Units.{Text}
use asad.Engine.Chunks.{ChunkDraft, high}
use asad.Engine.Chunks.Turns.{TurnIds}
use asad.Engine.Chunks.Order.{Kept}
use asad.Engine.Chunks.Locking.{locked}
use asad.Engine.Chunks.Histories.{
  Op, refine_turns, insert_turn, commit_due, trim_view, Screen, IsScreen, trimmed_in, run,
  run-locked,
}

abbrev as_is : Text → Text
as_is t = t

abbrev draft : Text → ChunkDraft
draft t = record {
  text = t;
  confidence = high;
  source_segment_id = none;
  corrects_chunk_id = none;
  note = none;
  adapted = none;
  turn_id = none;
  provisional = false;
}

abbrev turn : ℕ → TurnIds
turn n = record { first = n; others = [] }

-- The first turn is rendered and committed, the third one is provisional.
abbrev ops : List Op
ops =
    insert_turn (turn 1) (draft (97 ∷ 98 ∷ []) ∷ []) 1_000 false
    ∷ insert_turn (turn 3) (draft (99 ∷ []) ∷ []) 2_000 true
    ∷ []

abbrev empty : Screen
empty = record { chunks = []; next = 1 }

abbrev shown : Screen
shown = run as_is empty ops

empty-IsScreen : IsScreen empty
empty-IsScreen = record { apart = tt; drawn = tt }

abbrev more : List Op
more =
    insert_turn (turn 2) (draft (100 ∷ []) ∷ []) 3_000 false
    ∷ refine_turns (turn 3) (draft (101 ∷ 102 ∷ []) ∷ []) 3_500
    ∷ commit_due 9_000 2_000
    ∷ trim_view
    ∷ []

run-locked_example :
    Kept
      (drop (trimmed_in as_is shown more) (locked shown.chunks))
      (locked (run as_is shown more).chunks)
    × IsScreen (run as_is shown more)
run-locked_example = run-locked as_is shown more (run-locked as_is empty ops empty-IsScreen).1
