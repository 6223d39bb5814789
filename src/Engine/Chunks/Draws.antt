-- ===== src/Engine/Chunks/Draws.antt =====
-- src/interpreter/engine/chunks.ts: the operations that draw ids leave them distinct and drawn before
-- the counter.
use asad.Base.{
  ℕ, ◌+◌, ◌≡◌, refl, Bool, not, ◌||◌, List, [], ◌∷◌, ◌++◌, map, arith, length, keep, take, drop,
  append-nil, Bool-cases, take-append-drop, subst, sym, ◌-◌, inl, inr,
}
use asad.Base.Units.{Text}
use asad.Engine.Chunks.{
  ChunkDraft, Chunk, clear_anticipated, commit_all, number_chunks, incoming, delivered,
}
use asad.Engine.Chunks.Turns.{
  TurnIds, is_nil, all_current, in_ids, same_words, find_index, kept_after, provisional_chunks_for,
  settle, earliest, last_turn, as_refined, as_turn, trailing, is_newer_turn,
  refine_provisional_chunks, insert_turn_chunks,
}
use asad.Engine.Chunks.Order.{Kept, Kept-keep, Kept-both}
use asad.Engine.Chunks.Ids.{IsStore, Kept-IsStore, map-IsStore, between-IsStore, part-IsStore}

pub number_chunks-length :
    (build : ChunkDraft → ℕ → Chunk) (next : ℕ) (ds : List ChunkDraft)
    → length (number_chunks build next ds) ≡ length ds
unfolding number_chunks
number_chunks-length build next [] = refl
number_chunks-length build next (d ∷ ds) = ground (arith, number_chunks-length build (next + 1) ds)

pub clear-IsStore :
    (next : ℕ) (cs : List Chunk) → IsStore next cs → IsStore next (clear_anticipated cs)
clear-IsStore next cs = Kept-IsStore next (Kept-keep _ cs)

pub append-IsStore :
    (build : ChunkDraft → ℕ → Chunk)
    → ((d : ChunkDraft) (n : ℕ) → (build d n).id.number ≡ n)
    → (next : ℕ) (cs : List Chunk) (ds : List ChunkDraft) → IsStore next cs
    → IsStore (next + length ds) (cs ++ number_chunks build next ds)
append-IsStore build numbered next cs ds s =
    let whole = between-IsStore build numbered next cs [] ds (rw (append-nil cs) s) in
    rw (append-nil (number_chunks build next ds)) at whole

pub refine-IsStore :
    (lower : Text → Text) (cs : List Chunk) (ids : TurnIds) (ds : List ChunkDraft) (now next : ℕ)
    → IsStore next cs
    → IsStore
        (next + length (refine_provisional_chunks lower cs ids ds now next).added)
        (refine_provisional_chunks lower cs ids ds now next).chunks
unfolding refine_provisional_chunks
refine-IsStore lower cs ids ds now next s =
    let targets = provisional_chunks_for cs ids in
    let n = find_index (in_ids targets) cs in
    let before = keep (λ c. not (in_ids targets c)) (take n cs) in
    let after = keep (kept_after targets) (drop n cs) in
    let new = incoming lower (delivered lower (clear_anticipated before)) ds in
    let build = as_refined (earliest now targets) (last_turn ids) in
    let none_drawn : next + 0 ≡ next = omega arith in
    let stays : IsStore (next + 0) cs = rw none_drawn s in
    let flagged : IsStore (next + 0) (clear_anticipated (map (settle targets) cs)) =
      clear-IsStore (next + 0) (map (settle targets) cs)
        (map-IsStore (settle targets) (λ c. ground arith) (next + 0) cs stays) in
    let kept : Kept (before ++ after) cs =
      subst (Kept (before ++ after)) (take-append-drop n cs)
        (Kept-both (Kept-keep _ (take n cs)) (Kept-keep _ (drop n cs))) in
    elim (Bool-cases (is_nil targets || not (all_current targets))) [
      | inl e ↦ rw (e, refine_provisional_chunks) stays
      | inr e ↦ elim (Bool-cases (is_nil new)) [
        | inl f ↦ rw (e, f, refine_provisional_chunks) stays
        | inr f ↦ elim (Bool-cases (same_words lower new targets)) [
          | inl g ↦ rw (e, f, g, refine_provisional_chunks) flagged
          | inr g ↦
              rw (e, f, g, refine_provisional_chunks, number_chunks-length build next new)
                (between-IsStore build (λ d k. refl) next before after new
                  (Kept-IsStore next kept s))
        ]
      ]
    ]

pub insert-IsStore :
    (lower : Text → Text) (cs : List Chunk) (ds : List ChunkDraft) (ids : TurnIds) (now : ℕ)
    (fast : Bool) (next : ℕ)
    → IsStore next cs
    → IsStore
        (next + length (insert_turn_chunks lower cs ds ids now fast next).added)
        (insert_turn_chunks lower cs ds ids now fast next).chunks
unfolding insert_turn_chunks commit_all
insert-IsStore lower cs ds ids now fast next s =
    let base = clear_anticipated cs in
    let position : ℕ = length base - trailing (is_newer_turn (last_turn ids)) base in
    let before = take position base in
    let after = drop position base in
    let build = as_turn now (last_turn ids) fast in
    let new = incoming lower (delivered lower (commit_all before)) ds in
    let parts : IsStore next (before ++ after) =
      subst (IsStore next) (sym (take-append-drop position base)) (clear-IsStore next cs s) in
    rw (number_chunks-length build next new) (
      between-IsStore build (λ d k. refl) next (commit_all before) after new
        (part-IsStore _ (λ c. ground arith) next before after parts))
