-- ===== src/Engine/Chunks/Turns.antt =====
-- src/interpreter/engine/chunks.ts: provisional chunks of logical turns, their refinement, and the
-- insertion of a late turn. The turns of a request are never empty: the first one, and the others.
use asad.Base.{
  ℕ, suc, ◌-◌, min, max, Bool, true, false, not, ◌&&◌, ◌||◌, Option, none, some, List, [], ◌∷◌,
  ◌++◌, map, ltb, ◌==◌, if◌then◌else◌, length, take, drop, keep, every, exists,
}
use asad.Base.Units.{Text, text_eq}
use asad.Engine.Chunks.{
  ChunkDraft, Chunk, is_current, is_anticipated, current, plain, id_eq, normalise, delivered,
  incoming, number_chunks, clear_anticipated, commit_all, AddResult,
}

pub record TurnIds : Type 0 where
  pub first : ℕ
  pub others : List ℕ

abbrev pub has_turn : TurnIds → ℕ → Bool
has_turn ids t = ids.first == t || exists (λ u. u == t) ids.others

-- `Math.max(...turnIds)`
abbrev pub max_from : ℕ → List ℕ → ℕ
max_from m [] = m
max_from m (t ∷ ts) = max_from (max m t) ts

abbrev pub last_turn : TurnIds → ℕ
last_turn ids = max_from ids.first ids.others

abbrev pub of_turns : TurnIds → Option ℕ → Bool
of_turns ids none = false
of_turns ids (some t) = has_turn ids t

abbrev pub is_target : TurnIds → Chunk → Bool
is_target ids c = c.provisional && of_turns ids c.turn_id

abbrev pub provisional_chunks_for : List Chunk → TurnIds → List Chunk
provisional_chunks_for cs ids = keep (is_target ids) cs

pub data Legality : Type 0 where
  refine locked fresh : Legality

abbrev pub all_current : List Chunk → Bool
all_current = every (λ c. is_current c.state)

abbrev pub is_nil : {A : Type 0} → List A → Bool
is_nil [] = true
is_nil (_ ∷ _) = false

unfoldable pub refinement_legality : List Chunk → TurnIds → Legality
refinement_legality cs ids =
    let targets = provisional_chunks_for cs ids in
    if is_nil targets then fresh else if all_current targets then refine else locked

pub record RefineResult : Type 0 where
  pub chunks : List Chunk
  pub changed : Bool
  pub added : List Chunk

-- `targetIds.has(c.id)`
abbrev pub in_ids : List Chunk → Chunk → Bool
in_ids targets c = exists (λ t. id_eq t.id c.id) targets

-- `findIndex`, or the length where there is none
abbrev pub find_index : (Chunk → Bool) → List Chunk → ℕ
find_index p [] = 0
find_index p (c ∷ cs) = let later = suc (find_index p cs) in if p c then 0 else later

abbrev pub earliest : ℕ → List Chunk → ℕ
earliest at [] = at
earliest at (c ∷ cs) = earliest (min at c.at) cs

-- Draft by draft the same words as the targets.
abbrev pub same_words : (Text → Text) → List ChunkDraft → List Chunk → Bool
same_words lower [] [] = true
same_words lower (d ∷ ds) (c ∷ cs) =
    text_eq (normalise lower d.text) (normalise lower c.text) && same_words lower ds cs
same_words lower _ _ = false

abbrev pub as_refined : ℕ → ℕ → ChunkDraft → ℕ → Chunk
as_refined at turn d n = record {
  draft = record d { turn_id = some turn; provisional = false };
  id = record { prefix = plain; number = n };
  state = current;
  at = at;
}

-- The provisional flag of the targets is dropped, and their text stays.
abbrev pub settle : List Chunk → Chunk → Chunk
settle targets c =
    if in_ids targets c then record c { draft = record c.draft { provisional = false } } else c

-- The chunks that stay behind the targets.
abbrev pub kept_after : List Chunk → Chunk → Bool
kept_after targets c = not (in_ids targets c) && not (is_anticipated c.state)

unfoldable pub refine_provisional_chunks :
    (Text → Text) → List Chunk → TurnIds → List ChunkDraft → ℕ → ℕ → RefineResult
refine_provisional_chunks lower cs ids drafts now next =
    let targets = provisional_chunks_for cs ids in
    let first = find_index (in_ids targets) cs in
    let before = keep (λ c. not (in_ids targets c)) (take first cs) in
    let after = keep (kept_after targets) (drop first cs) in
    let found = incoming lower (delivered lower (clear_anticipated before)) drafts in
    let added = number_chunks (as_refined (earliest now targets) (last_turn ids)) next found in
    if is_nil targets || not (all_current targets)
    then record { chunks = cs; changed = false; added = [] }
    else if is_nil found
    then record { chunks = cs; changed = false; added = [] }
    else if same_words lower found targets
    then record {
      chunks = clear_anticipated (map (settle targets) cs);
      changed = false;
      added = [];
    }
    else record { chunks = before ++ (added ++ after); changed = true; added = added }

-- A chunk that a late turn goes in front of.
abbrev pub is_newer_turn : ℕ → Chunk → Bool
is_newer_turn turn c = is_current c.state && elim c.turn_id [ none ↦ false | some t ↦ ltb turn t ]

-- How many chunks at the end the loop from the end walks over.
abbrev pub trailing : (Chunk → Bool) → List Chunk → ℕ
trailing p [] = 0
trailing p (c ∷ cs) =
    let rest = trailing p cs in if (rest == length cs) && p c then suc rest else rest

abbrev pub as_turn : ℕ → ℕ → Bool → ChunkDraft → ℕ → Chunk
as_turn now turn fast d n = record {
  draft = record d { turn_id = some turn; provisional = fast || d.provisional };
  id = record { prefix = plain; number = n };
  state = current;
  at = now;
}

unfoldable pub insert_turn_chunks :
    (Text → Text) → List Chunk → List ChunkDraft → TurnIds → ℕ → Bool → ℕ → AddResult
insert_turn_chunks lower cs drafts ids now fast next =
    let base = clear_anticipated cs in
    let position = length base - trailing (is_newer_turn (last_turn ids)) base in
    let before = commit_all (take position base) in
    let after = drop position base in
    let added =
      number_chunks (as_turn now (last_turn ids) fast) next
        (incoming lower (delivered lower before) drafts) in
    record { chunks = before ++ (added ++ after); added = added }
