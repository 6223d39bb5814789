-- ===== src/Engine/Chunks/Histories.antt =====
-- src/interpreter/engine/chunks.ts: any sequence of the operations on the chunks, each with the ids
-- that it draws; `trimChunks`, which drops the oldest chunks of a long session, is one of them.
use asad.Base.{
  some, none, ℕ, ◌+◌, ◌≡◌, refl, Bool, false, List, [], ◌∷◌, map, arith, length, keep, take, drop,
  if◌then◌else◌, Bool-cases, subst, ◌-◌, inl, inr, leb, zero, suc, drop-drop,
}
use asad.Base.Units.{Text, trim}
use asad.Engine.Chunks.{
  ChunkDraft, Chunk, ChunkId, Confidence, correction, current, clear_anticipated, commit_due_chunks,
  commit_all, add_safe_chunks, set_anticipated_chunks, append_correction, number_chunks, incoming,
  delivered, as_current, as_predicted, is_predictable, trimmed, has_id, trim_chunks,
  max_chunks_in_view, is_committed,
}
use asad.Engine.Chunks.Turns.{TurnIds, refine_provisional_chunks, insert_turn_chunks}
use asad.Engine.Chunks.Order.{Kept, Kept-refl, Kept-trans, Kept-drop, Kept-drops}
use asad.Engine.Chunks.Ids.{IsStore, Kept-IsStore, map-IsStore}
use asad.Engine.Chunks.Locking.{
  locked, commit_all-locked, commit_due-locked, cleared-append, insert-locked, refine-locked,
}
use asad.Engine.Chunks.Draws.{
  number_chunks-length, clear-IsStore, append-IsStore, refine-IsStore, insert-IsStore,
}

pub data Op : Type 0 where
  add : List ChunkDraft → ℕ → Op
  anticipate : List ChunkDraft → ℕ → Op
  refine_turns : TurnIds → List ChunkDraft → ℕ → Op
  insert_turn : TurnIds → List ChunkDraft → ℕ → Bool → Op
  commit_due : ℕ → ℕ → Op
  commit_now : Op
  correct : ChunkId → Text → ℕ → Confidence → Op
  trim_view : Op

-- How many of the oldest chunks `trimChunks` takes away, and how many of them are committed.
abbrev pub overflow : List Chunk → ℕ
overflow cs = length cs - max_chunks_in_view

abbrev pub committed_overflow : List Chunk → ℕ
committed_overflow cs = length (locked (take (overflow cs) cs))

-- The chunks, and the number of the next id.
pub record Screen : Type 0 where
  pub chunks : List Chunk
  pub next : ℕ

unfoldable pub apply : (Text → Text) → Screen → Op → Screen
apply lower s (add ds now) =
    let r = add_safe_chunks lower s.chunks ds now s.next in
    record { chunks = r.chunks; next = s.next + length r.added }
apply lower s (anticipate ds now) =
    let base = clear_anticipated s.chunks in
    record {
      chunks = set_anticipated_chunks lower s.chunks ds now s.next;
      next = s.next + length (keep (is_predictable lower (delivered lower base)) (map trimmed ds));
    }
apply lower s (refine_turns ids ds now) =
    let r = refine_provisional_chunks lower s.chunks ids ds now s.next in
    record { chunks = r.chunks; next = s.next + length r.added }
apply lower s (insert_turn ids ds now fast) =
    let r = insert_turn_chunks lower s.chunks ds ids now fast s.next in
    record { chunks = r.chunks; next = s.next + length r.added }
apply lower s (commit_due now dwell) = record {
  chunks = commit_due_chunks s.chunks now dwell;
  next = s.next;
}
apply lower s commit_now = record { chunks = commit_all s.chunks; next = s.next }
apply lower s (correct target text now confidence) = record {
  chunks = append_correction s.chunks target text now confidence s.next;
  next = if has_id target s.chunks then s.next + 1 else s.next;
}
apply lower s trim_view = record { chunks = trim_chunks s.chunks; next = s.next }

-- How many committed chunks the operation trims.
abbrev pub trimmed_by : Screen → Op → ℕ
trimmed_by s trim_view = committed_overflow s.chunks
trimmed_by s _ = 0

abbrev pub IsScreen : Screen → Type 0
IsScreen s = IsStore s.next s.chunks

locked-drop :
    (n : ℕ) (cs : List Chunk) → locked (drop n cs) ≡ drop (length (locked (take n cs))) (locked cs)
locked-drop zero cs = refl
locked-drop (suc n) [] = refl
locked-drop (suc n) (c ∷ cs) = elim (Bool-cases (is_committed c.state)) [
  | inl e ↦ rw e (locked-drop n cs)
  | inr e ↦ rw e (locked-drop n cs)
]

trim_chunks-drop : (cs : List Chunk) → trim_chunks cs ≡ drop (overflow cs) cs
unfolding trim_chunks
trim_chunks-drop cs = elim (Bool-cases (leb (length cs) max_chunks_in_view)) [
  | inl e ↦ let fits : overflow cs ≡ 0 = ground arith in rw (e, fits) refl
  | inr e ↦ rw e refl
]

trim-locked :
    (cs : List Chunk) → Kept (drop (committed_overflow cs) (locked cs)) (locked (trim_chunks cs))
trim-locked cs = rw (trim_chunks-drop cs, locked-drop (overflow cs) cs) (Kept-refl _)

apply-locked :
    (lower : Text → Text) (s : Screen) (o : Op)
    → IsScreen s
    → Kept (drop (trimmed_by s o) (locked s.chunks)) (locked (apply lower s o).chunks)
unfolding apply add_safe_chunks set_anticipated_chunks append_correction
apply-locked lower s (add ds now) i = cleared-append s.chunks _
apply-locked lower s (anticipate ds now) i = cleared-append s.chunks _
apply-locked lower s (refine_turns ids ds now) i =
    refine-locked lower s.chunks ids ds now s.next i.apart
apply-locked lower s (insert_turn ids ds now fast) i =
    insert-locked lower s.chunks ds ids now fast s.next
apply-locked lower s (commit_due now dwell) i = commit_due-locked s.chunks now dwell
apply-locked lower s commit_now i = commit_all-locked s.chunks
apply-locked lower s (correct target text now confidence) i =
    elim (Bool-cases (has_id target s.chunks)) [
      | inl e ↦ rw e (cleared-append s.chunks _)
      | inr e ↦ rw e (Kept-refl (locked s.chunks))
    ]
apply-locked lower s trim_view i = trim-locked s.chunks

apply-IsScreen :
    (lower : Text → Text) (s : Screen) (o : Op) → IsScreen s → IsScreen (apply lower s o)
unfolding apply add_safe_chunks set_anticipated_chunks append_correction commit_due_chunks
    commit_all number_chunks
apply-IsScreen lower s (add ds now) i =
    let base = clear_anticipated s.chunks in
    let new = incoming lower (delivered lower base) ds in
    rw (number_chunks-length (as_current now) s.next new) (
      append-IsStore (as_current now) (λ d k. refl) s.next base new
        (clear-IsStore s.next s.chunks i))
apply-IsScreen lower s (anticipate ds now) i =
    let base = clear_anticipated s.chunks in
    append-IsStore (as_predicted now) (λ d k. refl) s.next base _ (clear-IsStore s.next s.chunks i)
apply-IsScreen lower s (refine_turns ids ds now) i =
    refine-IsStore lower s.chunks ids ds now s.next i
apply-IsScreen lower s (insert_turn ids ds now fast) i =
    insert-IsStore lower s.chunks ds ids now fast s.next i
apply-IsScreen lower s (commit_due now dwell) i =
    map-IsStore _ (λ c. ground arith) s.next s.chunks i
apply-IsScreen lower s commit_now i = map-IsStore _ (λ c. ground arith) s.next s.chunks i
apply-IsScreen lower s (correct target text now confidence) i =
    let d : ChunkDraft = record {
      text = trim text;
      confidence = confidence;
      source_segment_id = none;
      corrects_chunk_id = some target;
      note = some "correction";
      adapted = none;
      turn_id = none;
      provisional = false;
    } in
    let build : ChunkDraft → ℕ → Chunk = λ e n. record {
      draft = e;
      id = record { prefix = correction; number = n };
      state = current;
      at = now;
    } in
    elim (Bool-cases (has_id target s.chunks)) [
      | inl e ↦ rw e (
          append-IsStore build (λ _ _. refl) s.next (clear_anticipated s.chunks) (d ∷ [])
            (clear-IsStore s.next s.chunks i))
      | inr e ↦ rw e i
    ]
apply-IsScreen lower s trim_view i =
    rw (trim_chunks-drop s.chunks) (Kept-IsStore s.next (Kept-drop (overflow s.chunks) s.chunks) i)

pub run : (Text → Text) → Screen → List Op → Screen
run lower s [] = s
run lower s (o ∷ os) = run lower (apply lower s o) os

-- How many committed chunks the trims of the operations take away.
pub trimmed_in : (Text → Text) → Screen → List Op → ℕ
trimmed_in lower s [] = 0
trimmed_in lower s (o ∷ os) = trimmed_in lower (apply lower s o) os + trimmed_by s o

-- Whatever operations run on a screen whose ids are distinct and drawn before the counter, the
-- committed chunks it had, less as many of the oldest as trims took away, are still there
-- afterwards: all of them, as they were and in their order, with others at most in between; and the
-- ids are again distinct and drawn before the counter. A trim takes away the committed ones among
-- the chunks that are too many for the view of 400.
pub run-locked :
    (lower : Text → Text) (s : Screen) (os : List Op)
    → IsScreen s
    → Kept (drop (trimmed_in lower s os) (locked s.chunks)) (locked (run lower s os).chunks)
      × IsScreen (run lower s os)
unfolding run trimmed_in
run-locked lower s [] i = (Kept-refl (locked s.chunks), i)
run-locked lower s (o ∷ os) i =
    let (later, whole) = run-locked lower (apply lower s o) os (apply-IsScreen lower s o i) in
    let n = trimmed_in lower (apply lower s o) os in
    let first = Kept-drops n (apply-locked lower s o i) in
    (
      subst (λ xs. Kept xs (locked (run lower (apply lower s o) os).chunks))
          (drop-drop n (trimmed_by s o) (locked s.chunks)) (Kept-trans first later),
      whole,
    )
