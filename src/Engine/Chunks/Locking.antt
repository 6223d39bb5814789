-- ===== src/Engine/Chunks/Locking.antt =====
-- src/interpreter/engine/chunks.ts: temporal locking. No operation loses, alters or reorders a
-- committed chunk.
use asad.Base.{
  ℕ, zero, suc, ◌-◌, ◌≡◌, refl, sym, ap, ap₂, ◌∙◌, subst, inl, inr, Bool, true, false, not, ◌&&◌,
  ◌||◌, List, [], ◌∷◌, ◌++◌, map, arith, keep, length, take, drop, keep-append, take-append-drop,
  Bool-cases, All,
}
use asad.Base.Units.{Text}
use asad.Engine.Chunks.{
  ChunkDraft, Chunk, is_current, is_committed, clear_anticipated, number_chunks, incoming,
  delivered, commit_due_chunks, commit_all,
}
use asad.Engine.Chunks.Turns.{
  TurnIds, as_turn, settle, is_target, in_ids, kept_after, provisional_chunks_for, all_current,
  is_nil, find_index, refine_provisional_chunks, insert_turn_chunks, last_turn, same_words,
  trailing, is_newer_turn,
}
use asad.Engine.Chunks.Order.{
  Kept, done, same, extra, Kept-refl, Kept-trans, Kept-append, Kept-prepend, Kept-both,
}
use asad.Engine.Chunks.Ids.{Distinct, HasOther}

-- The chunks that the interpreter has probably said.
abbrev pub locked : List Chunk → List Chunk
locked = keep (λ c. is_committed c.state)

pub locked-clear : (cs : List Chunk) → locked (clear_anticipated cs) ≡ locked cs
locked-clear [] = refl
locked-clear (c ∷ cs) = ground (arith, locked-clear cs)

abbrev Fixes : (Chunk → Chunk) → Chunk → Type 0
Fixes f c = is_committed c.state ≡ true → f c ≡ c

Kept-map :
    (f : Chunk → Chunk) (cs : List Chunk) → All (Fixes f) cs → Kept (locked cs) (locked (map f cs))
Kept-map f [] a = done []
Kept-map f (c ∷ cs) a =
    let ih = Kept-map f cs a.1 in
    elim (Bool-cases (is_committed c.state)) [
      | inl e ↦ rw (a.0 e, e) (same c ih)
      | inr e ↦ rw e (elim (Bool-cases (is_committed (f c).state)) [
        | inl d ↦ rw d (extra (f c) ih)
        | inr d ↦ rw d ih
      ])
    ]

All-every {κ} : (P : Chunk → Type κ) → ((c : Chunk) → P c) → (cs : List Chunk) → All P cs
All-every P f [] = tt
All-every P f (c ∷ cs) = (f c, All-every P f cs)

pub commit_all-locked : (cs : List Chunk) → Kept (locked cs) (locked (commit_all cs))
unfolding commit_all
commit_all-locked cs = Kept-map _ cs (All-every (Fixes _) (λ c e. ground arith) cs)

pub commit_due-locked :
    (cs : List Chunk) (now dwell : ℕ) → Kept (locked cs) (locked (commit_due_chunks cs now dwell))
unfolding commit_due_chunks
commit_due-locked cs now dwell = Kept-map _ cs (All-every (Fixes _) (λ c e. ground arith) cs)

-- Behind what is left once the prediction is gone.
pub cleared-append : (cs ns : List Chunk) → Kept (locked cs) (locked (clear_anticipated cs ++ ns))
cleared-append cs ns =
    rw (keep-append (λ c. is_committed c.state) (clear_anticipated cs) ns, locked-clear cs)
      (Kept-append (locked ns) (Kept-refl (locked cs)))

-- In the middle of it.
split-between : (xs ns ys : List Chunk) → Kept (locked (xs ++ ys)) (locked (xs ++ (ns ++ ys)))
split-between xs ns ys =
    let p = λ (c : Chunk). is_committed c.state in
    rw (keep-append p xs ys, keep-append p xs (ns ++ ys), keep-append p ns ys)
      (Kept-both (Kept-refl (locked xs)) (Kept-prepend (locked ns) (Kept-refl (locked ys))))

pub insert-locked :
    (lower : Text → Text) (cs : List Chunk) (ds : List ChunkDraft) (ids : TurnIds) (now : ℕ)
    (fast : Bool) (next : ℕ)
    → Kept (locked cs) (locked (insert_turn_chunks lower cs ds ids now fast next).chunks)
unfolding insert_turn_chunks
insert-locked lower cs ds ids now fast next =
    let base = clear_anticipated cs in
    let position : ℕ = length base - trailing (is_newer_turn (last_turn ids)) base in
    let before = take position base in
    let after = drop position base in
    let p = λ (c : Chunk). is_committed c.state in
    let ns =
      number_chunks (as_turn now (last_turn ids) fast) next
        (incoming lower (delivered lower (commit_all before)) ds) in
    let halves : locked cs ≡ locked before ++ locked after =
      sym (locked-clear cs)
      ∙ ap locked (sym (take-append-drop position base))
      ∙ keep-append p before after in
    let grown = Kept-both (commit_all-locked before) (Kept-refl (locked after)) in
    let joined : locked (commit_all before) ++ locked after ≡ locked (commit_all before ++ after) =
      sym (keep-append p (commit_all before) after) in
    rw halves (Kept-trans (rw joined at grown) (split-between (commit_all before) ns after))

-- The numbers of the chunks in a list are not among those of the targets taken from the others.
in_ids-other :
    (p : Chunk → Bool) (c : Chunk) (cs : List Chunk)
    → All (HasOther c.id.number) cs
    → in_ids (keep p cs) c ≡ false
in_ids-other p c [] a = refl
in_ids-other p c (d ∷ ds) a = ground (arith, in_ids-other p c ds a.1)

abbrev IsSafe : List Chunk → Chunk → Type 0
IsSafe targets c = is_committed c.state ≡ true → in_ids targets c ≡ false

IsSafe-cons :
    (t : Chunk) (targets cs : List Chunk)
    → All (HasOther t.id.number) cs
    → All (IsSafe targets) cs
    → All (IsSafe (t ∷ targets)) cs
IsSafe-cons t targets [] a b = tt
IsSafe-cons t targets (c ∷ cs) a b = (λ e. ground (arith, b.0 e), IsSafe-cons t targets cs a.1 b.1)

-- Where all targets can still be edited, no committed chunk shares an id with one of them.
targets-IsSafe :
    (p : Chunk → Bool) (cs : List Chunk)
    → Distinct cs
    → all_current (keep p cs) ≡ true
    → All (IsSafe (keep p cs)) cs
targets-IsSafe p [] d e = tt
targets-IsSafe p (c ∷ cs) d e = elim (Bool-cases (p c)) [
  | inl h ↦
      let found : keep p (c ∷ cs) ≡ c ∷ keep p cs = rw h in
      let now : is_current c.state && all_current (keep p cs) ≡ true = rw found at e in
      let later = targets-IsSafe p cs d.1 (ground arith) in
      subst (λ ts. All (IsSafe ts) (c ∷ cs)) (sym found)
        (λ x. ground arith, IsSafe-cons c (keep p cs) cs d.0 later)
  | inr h ↦
      let missed : keep p (c ∷ cs) ≡ keep p cs = rw h in
      subst (λ ts. All (IsSafe ts) (c ∷ cs)) (sym missed)
        (λ _. in_ids-other p c cs d.0, targets-IsSafe p cs d.1 (rw missed at e))
]

-- A filter that lets all committed chunks through.
locked-keep :
    (q : Chunk → Bool) (cs : List Chunk)
    → All (λ c. is_committed c.state ≡ true → q c ≡ true) cs
    → locked (keep q cs) ≡ locked cs
locked-keep q [] a = refl
locked-keep q (c ∷ cs) a = ground (arith, locked-keep q cs a.1, a.0)

All-map-safe :
    (targets : List Chunk) (Q : Chunk → Type 0)
    → ((c : Chunk) → IsSafe targets c → Q c)
    → (cs : List Chunk) → All (IsSafe targets) cs
    → All Q cs
All-map-safe targets Q f [] a = tt
All-map-safe targets Q f (c ∷ cs) a = (f c a.0, All-map-safe targets Q f cs a.1)

All-parts :
    (P : Chunk → Type 0) (n : ℕ) (cs : List Chunk)
    → All P cs
    → All P (take n cs) × All P (drop n cs)
All-parts P zero cs a = (tt, a)
All-parts P (suc n) [] a = (tt, tt)
All-parts P (suc n) (c ∷ cs) a = let (l, r) = All-parts P n cs a.1 in ((a.0, l), r)

-- The chunks around the targets hold all that is locked.
around-locked :
    (targets : List Chunk) (n : ℕ) (cs ns : List Chunk)
    → All (IsSafe targets) cs
    → Kept (locked cs) (
        locked (
          keep (λ c. not (in_ids targets c)) (take n cs)
          ++ (ns ++ keep (kept_after targets) (drop n cs))))
around-locked targets n cs ns safe =
    let (l, r) = All-parts (IsSafe targets) n cs safe in
    let p = λ (c : Chunk). is_committed c.state in
    let before = keep (λ c. not (in_ids targets c)) (take n cs) in
    let after = keep (kept_after targets) (drop n cs) in
    let left : locked before ≡ locked (take n cs) =
      locked-keep _ (take n cs)
        (All-map-safe targets _ (λ c h e. ground (arith, h e)) (take n cs) l) in
    let right : locked after ≡ locked (drop n cs) =
      locked-keep _ (drop n cs)
        (All-map-safe targets _ (λ c h e. ground (arith, h e)) (drop n cs) r) in
    let whole : locked (before ++ after) ≡ locked cs =
      keep-append p before after
      ∙ ap₂ (λ x y. x ++ y) left right
      ∙ sym (keep-append p (take n cs) (drop n cs))
      ∙ ap locked (take-append-drop n cs) in
    rw (← whole) (split-between before ns after)

pub refine-locked :
    (lower : Text → Text) (cs : List Chunk) (ids : TurnIds) (ds : List ChunkDraft) (now next : ℕ)
    → Distinct cs
    → Kept (locked cs) (locked (refine_provisional_chunks lower cs ids ds now next).chunks)
unfolding refine_provisional_chunks
refine-locked lower cs ids ds now next d =
    let targets = provisional_chunks_for cs ids in
    elim (Bool-cases (is_nil targets || not (all_current targets))) [
      | inl e ↦ rw (e, refine_provisional_chunks) (Kept-refl (locked cs))
      | inr e ↦
          let safe = targets-IsSafe (is_target ids) cs d (ground arith) in
          let settled : Kept (locked cs) (locked (clear_anticipated (map (settle targets) cs))) =
            rw (locked-clear (map (settle targets) cs)) (
              Kept-map (settle targets) cs
                (All-map-safe targets (Fixes (settle targets)) (λ c h x. rw (h x)) cs safe)) in
          let n = find_index (in_ids targets) cs in
          let before = keep (λ c. not (in_ids targets c)) (take n cs) in
          let new = incoming lower (delivered lower (clear_anticipated before)) ds in
          elim (Bool-cases (is_nil new)) [
            | inl f ↦ rw (e, f, refine_provisional_chunks) (Kept-refl (locked cs))
            | inr f ↦ elim (Bool-cases (same_words lower new targets)) [
              | inl g ↦ rw (e, f, g, refine_provisional_chunks) settled
              | inr g ↦ rw (e, f, g, refine_provisional_chunks) (around-locked targets n cs _ safe)
            ]
          ]
    ]
