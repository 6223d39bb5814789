-- ===== src/Engine/Turns/Queue.antt =====
-- src/interpreter/engine/turns.ts: what the bound on the waiting unit drops and keeps, and when a
-- turn's promise is settled.
use asad.Base.{
  ℕ, zero, suc, ◌+◌, ◌≤◌, ◌≡◌, ◌≢◌, refl, ◌⊎◌, inl, inr, Bool, false, Option, some, List, [], ◌∷◌,
  ◌++◌, arith, All, length, length-append, drop, if◌then◌else◌, Bool-cases,
}
use asad.Base.Units.{Text}
use asad.Engine.Turns.{
  LogicalTurn, ProvisionalState, pending, off, FlushBoundary, create_turn, settle_provisional,
  chars, is_overfull, shed, waiting_turns, enqueue_contextual, unit_text, max_coalesced_turns,
  max_coalesced_chars,
}

shed-whole : (ts : List LogicalTurn) → (shed ts).dropped ++ (shed ts).turns ≡ ts
unfolding shed
shed-whole [] = refl
shed-whole (t ∷ ts) = ground (arith, shed-whole ts)

shed-fits : (ts : List LogicalTurn) → is_overfull (shed ts).turns ≡ false
unfolding shed
shed-fits [] = refl
shed-fits (t ∷ ts) = ground (arith, shed-fits ts)

-- What stays ends with the last turn.
shed-last :
    (ts : List LogicalTurn) (t : LogicalTurn)
    → (init : List LogicalTurn) × ((shed (ts ++ t ∷ [])).turns ≡ init ++ t ∷ [])
unfolding shed
shed-last [] t = ([], ground arith)
shed-last (u ∷ us) t = elim (Bool-cases (is_overfull (u ∷ (us ++ t ∷ [])))) [
  | inl e ↦ let (init, same) = shed-last us t in (init, rw e same)
  | inr e ↦ (u ∷ us, rw e refl)
]

shed-least :
    (ts : List LogicalTurn) (n : ℕ) → is_overfull (drop n ts) ≡ false → length (shed ts).dropped ≤ n
unfolding shed
shed-least [] n h = omega arith
shed-least (t ∷ ts) zero h = ground arith
shed-least (t ∷ ts) (suc n) h = ground (arith, shed-least ts n h)

chars-text :
    (t : LogicalTurn) (ts : List LogicalTurn) → length (unit_text (t ∷ ts)) + 1 ≡ chars (t ∷ ts)
unfolding unit_text
chars-text t [] = omega arith
chars-text t (u ∷ us) =
    omega (arith, chars-text u us, length-append t.text (32 ∷ unit_text (u ∷ us)))

queue_text :
    (ts init : List LogicalTurn) (turn : LogicalTurn)
    → ts ≡ init ++ turn ∷ []
    → is_overfull ts ≡ false
    → (ts ≡ turn ∷ []) ⊎ (length (unit_text ts) + 1 ≤ max_coalesced_chars)
queue_text [] [] turn e h = absurd cc
queue_text [] (i ∷ init) turn e h = absurd cc
queue_text (t ∷ []) [] turn e h = inl e
queue_text (t ∷ []) (i ∷ []) turn e h = absurd cc
queue_text (t ∷ []) (i ∷ j ∷ init) turn e h = absurd cc
queue_text (t ∷ u ∷ us) init turn e h = inr (ground (arith, chars-text t (u ∷ us)))

-- A queue that a turn has joined holds at most six turns, the joining one last; together with the
-- turns that were dropped it is the old queue and the new turn, in order; and its text stays under
-- 3,500 units unless the new turn is alone in it.
pub enqueue_contextual-bounded :
    (unit : Option (List LogicalTurn)) (turn : LogicalTurn)
    → let r = enqueue_contextual unit turn in
      (r.dropped ++ r.turns ≡ waiting_turns unit ++ turn ∷ [])
      × ((init : List LogicalTurn) × (r.turns ≡ init ++ turn ∷ []))
      × (length r.turns ≤ max_coalesced_turns)
      × ((r.turns ≡ turn ∷ []) ⊎ (length (unit_text r.turns) + 1 ≤ max_coalesced_chars))
unfolding enqueue_contextual
enqueue_contextual-bounded unit turn =
    let ts = waiting_turns unit ++ turn ∷ [] in
    let (init, last) = shed-last (waiting_turns unit) turn in
    let fits = shed-fits ts in
    (shed-whole ts, (init, last), ground arith, queue_text (shed ts).turns init turn last fits)

-- No fewer turns could have been dropped: any number of turns whose removal from the front leaves a
-- queue within the bounds is at least the number dropped.
pub enqueue_contextual-least :
    (unit : Option (List LogicalTurn)) (turn : LogicalTurn) (n : ℕ)
    → is_overfull (drop n (waiting_turns unit ++ turn ∷ [])) ≡ false
    → length (enqueue_contextual unit turn).dropped ≤ n
unfolding enqueue_contextual
enqueue_contextual-least unit turn n h = shed-least (waiting_turns unit ++ turn ∷ []) n h

unfoldable pub settle_all : LogicalTurn → List ProvisionalState → LogicalTurn
settle_all t [] = t
settle_all t (s ∷ ss) = settle_all (settle_provisional t s) ss

-- A state that the fast lane can report.
abbrev pub IsFinal : ProvisionalState → Type 0
IsFinal s = s ≢ pending

settle_all-kept :
    (t : LogicalTurn) (ss : List ProvisionalState) (s : ProvisionalState)
    → t.provisional_settled ≡ some s
    → (settle_all t ss).provisional_settled ≡ some s
unfolding settle_all settle_provisional
settle_all-kept t [] s e = e
settle_all-kept t (r ∷ ss) s e = settle_all-kept (settle_provisional t r) ss s (ground arith)

settle_all-IsFinal :
    (t : LogicalTurn) (ss : List ProvisionalState)
    → All IsFinal ss
    → IsFinal t.provisional
    → IsFinal (settle_all t ss).provisional
unfolding settle_all settle_provisional
settle_all-IsFinal t [] a f = f
settle_all-IsFinal t (s ∷ ss) a f = settle_all-IsFinal (settle_provisional t s) ss a.1 a.0

-- The first state that the fast lane reports of a turn is what its promise resolves to, whatever is
-- reported later, unless no fast lane runs for it: then it has resolved to `off` from the start. A
-- turn that has a state reported is never pending again.
pub settled_once :
    (id : ℕ) (text : Text) (at : ℕ) (boundary : FlushBoundary) (continues fast : Bool)
    (s : ProvisionalState) (ss : List ProvisionalState)
    → All IsFinal (s ∷ ss)
    → let t = settle_all (create_turn id text at boundary continues fast) (s ∷ ss) in
      (t.provisional_settled ≡ some (if fast then s else off)) × IsFinal t.provisional
unfolding settle_all settle_provisional create_turn
settled_once id text at boundary continues fast s ss a =
    (settle_all-kept _ ss (if fast then s else off) (ground arith), settle_all-IsFinal _ ss a.1 a.0)
