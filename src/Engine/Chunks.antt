-- ===== src/Engine/Chunks.antt =====
-- src/interpreter/engine/chunks.ts: the store of English chunks, whose confirmed text moves one way
-- only. Texts are UTF-16 units, and `toLowerCase` is an argument. The counter of the ids is passed
-- along: an operation that draws ids takes the next number, and draws one for each chunk that it
-- adds. An absent `provisional` is false, since only `=== true` reads it.
pub mod Turns
pub mod Order
pub mod Ids
pub mod Locking
pub mod Draws
pub mod Histories
mod Tests
use asad.Base.{
  ℕ, suc, ◌+◌, ◌-◌, String, Bool, true, false, not, ◌&&◌, ◌||◌, Option, none, some, List, [], ◌∷◌,
  ◌++◌, map, leb, ltb, ◌==◌, if◌then◌else◌, length, drop, keep,
}
use asad.Base.Units.{Text, trim, is_empty, text_eq, includes}

pub data ChunkState : Type 0 where
  anticipated current committed : ChunkState

pub data Confidence : Type 0 where
  high medium low : Confidence

-- The prefix and the number of an id.
pub data Prefix : Type 0 where
  plain predicted correction : Prefix

pub record ChunkId : Type 0 where
  pub prefix : Prefix
  pub number : ℕ

abbrev pub prefix_eq : Prefix → Prefix → Bool
prefix_eq plain plain = true
prefix_eq predicted predicted = true
prefix_eq correction correction = true
prefix_eq _ _ = false

abbrev pub id_eq : ChunkId → ChunkId → Bool
id_eq a b = prefix_eq a.prefix b.prefix && (a.number == b.number)

pub record ChunkDraft : Type 0 where
  pub text : Text
  pub confidence : Confidence
  pub source_segment_id : Option String
  pub corrects_chunk_id : Option ChunkId
  pub note : Option String
  pub adapted : Option Bool
  pub turn_id : Option ℕ
  pub provisional : Bool

pub record Chunk : Type 0 where
  pub draft : ChunkDraft
  pub open draft use *
  pub id : ChunkId
  pub state : ChunkState
  pub at : ℕ

abbrev pub is_anticipated : ChunkState → Bool
is_anticipated anticipated = true
is_anticipated _ = false

abbrev pub is_current : ChunkState → Bool
is_current current = true
is_current _ = false

abbrev pub is_committed : ChunkState → Bool
is_committed committed = true
is_committed _ = false

-- `[a-z0-9가-힣]`
unfoldable pub is_word_unit : ℕ → Bool
is_word_unit c =
    (leb 97 c && leb c 122) || ((leb 48 c && leb c 57) || (leb 0xac00 c && leb c 0xd7a3))

-- Each run of other units becomes one space; the flag says that such a run is under way.
unfoldable pub squeeze : Bool → Text → Text
unfolding is_word_unit
squeeze in_run [] = []
squeeze in_run (c ∷ cs) =
    let word = c ∷ squeeze false cs in
    let run = squeeze true cs in if is_word_unit c then word else if in_run then run else 32 ∷ run

unfoldable pub normalise : (Text → Text) → Text → Text
normalise lower t = trim (squeeze false (lower t))

abbrev pub duplicate_window : ℕ
duplicate_window = 6

-- `slice(-DUPLICATE_WINDOW)`
abbrev pub recent : List Chunk → List Chunk
recent cs = drop (length cs - duplicate_window) cs

-- `clearAnticipated`, and `spokenChunks`
abbrev pub clear_anticipated : List Chunk → List Chunk
clear_anticipated = keep (λ c. not (is_anticipated c.state))

abbrev pub anticipated_chunks : List Chunk → List Chunk
anticipated_chunks = keep (λ c. is_anticipated c.state)

abbrev pub delivered : (Text → Text) → List Chunk → List Text
delivered lower cs = map (λ c. normalise lower c.text) (recent cs)

abbrev pub trimmed : ChunkDraft → ChunkDraft
trimmed d = record d { text = trim d.text }

-- The tests of the loops over the drafts.
abbrev pub is_usable : (Text → Text) → List Text → ChunkDraft → Bool
is_usable lower seen d =
    not (is_empty d.text)
    && (not (is_empty (normalise lower d.text)) && not (includes seen (normalise lower d.text)))

-- The drafts that such a loop keeps, trimmed.
abbrev pub incoming : (Text → Text) → List Text → List ChunkDraft → List ChunkDraft
incoming lower seen ds = keep (is_usable lower seen) (map trimmed ds)

-- Chunks built from the drafts, each with the next number.
unfoldable pub number_chunks : (ChunkDraft → ℕ → Chunk) → ℕ → List ChunkDraft → List Chunk
number_chunks build next [] = []
number_chunks build next (d ∷ ds) = build d next ∷ number_chunks build (next + 1) ds

abbrev pub as_current : ℕ → ChunkDraft → ℕ → Chunk
as_current now d n = record {
  draft = d;
  id = record { prefix = plain; number = n };
  state = current;
  at = now;
}

abbrev pub as_predicted : ℕ → ChunkDraft → ℕ → Chunk
as_predicted now d n = record {
  draft = d;
  id = record { prefix = predicted; number = n };
  state = anticipated;
  at = now;
}

pub record AddResult : Type 0 where
  pub chunks : List Chunk
  pub added : List Chunk

unfoldable pub add_safe_chunks : (Text → Text) → List Chunk → List ChunkDraft → ℕ → ℕ → AddResult
add_safe_chunks lower cs ds now next =
    let base = clear_anticipated cs in
    let added = number_chunks (as_current now) next (incoming lower (delivered lower base) ds) in
    record { chunks = base ++ added; added = added }

-- The prediction keeps a draft whose normal form is empty, unless such a line was spoken.
abbrev pub is_predictable : (Text → Text) → List Text → ChunkDraft → Bool
is_predictable lower seen d = not (is_empty d.text) && not (includes seen (normalise lower d.text))

unfoldable pub set_anticipated_chunks :
    (Text → Text) → List Chunk → List ChunkDraft → ℕ → ℕ → List Chunk
set_anticipated_chunks lower cs ds now next =
    let base = clear_anticipated cs in
    base
    ++ number_chunks (as_predicted now) next
        (keep (is_predictable lower (delivered lower base)) (map trimmed ds))

abbrev pub commit : Chunk → Chunk
commit c = record c { state = committed }

-- The signed age is below the dwell time for a chunk from the future.
abbrev pub is_due : ℕ → ℕ → Chunk → Bool
is_due now dwell c = is_current c.state && leb (c.at + dwell) now

unfoldable pub commit_due_chunks : List Chunk → ℕ → ℕ → List Chunk
commit_due_chunks cs now dwell = map (λ c. if is_due now dwell c then commit c else c) cs

unfoldable pub commit_all : List Chunk → List Chunk
commit_all cs = map (λ c. if is_current c.state then commit c else c) cs

abbrev pub has_id : ChunkId → List Chunk → Bool
has_id id [] = false
has_id id (c ∷ cs) = id_eq c.id id || has_id id cs

unfoldable pub append_correction : List Chunk → ChunkId → Text → ℕ → Confidence → ℕ → List Chunk
append_correction cs target text now confidence next =
    if has_id target cs
    then clear_anticipated cs
      ++ record {
        draft = record {
          text = trim text;
          confidence = confidence;
          source_segment_id = none;
          corrects_chunk_id = some target;
          note = some "correction";
          adapted = none;
          turn_id = none;
          provisional = false;
        };
        id = record { prefix = correction; number = next };
        state = current;
        at = now;
      }
        ∷ []
    else cs

-- `[...chunks].reverse().find(p)`
abbrev pub find_last : (Chunk → Bool) → List Chunk → Option Chunk
find_last p [] = none
find_last p (c ∷ cs) = elim (find_last p cs) [
  | some d ↦ some d
  | none ↦ if p c then some c else none
]

unfoldable pub active_chunk : List Chunk → Option Chunk
active_chunk cs = elim (find_last (λ c. is_current c.state) cs) [
  | some c ↦ some c
  | none ↦ find_last (λ c. is_committed c.state) cs
]

abbrev pub max_chunks_in_view : ℕ
max_chunks_in_view = 400

unfoldable pub trim_chunks : List Chunk → List Chunk
trim_chunks cs =
    if leb (length cs) max_chunks_in_view then cs else drop (length cs - max_chunks_in_view) cs
