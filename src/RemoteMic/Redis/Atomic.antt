-- ===== src/RemoteMic/Redis/Atomic.antt =====
-- src/remote-mic/store.ts: `RedisRemoteMicStore.update` beside other requests.
use asad.Base.{
  ℕ, zero, suc, ◌+◌, ◌≤◌, ◌<◌, ◌≡◌, refl, sym, ap, ◌∙◌, ◌⊎◌, inl, inr, none, some, List, [], ◌∷◌,
  ◌++◌, arith, ◌==◌, if◌then◌else◌, Bool-cases, Option-cases,
}
use asad.RemoteMic.Session.{Pairing}
use asad.RemoteMic.Routes.{Mutated}
use asad.RemoteMic.Redis.{
  Envelope, Entry, CasResult, replaced, missing, lost, compare_and_set, Interference, written, gone,
  next_envelope, interfere, found, busy, update_retries, attempt, update,
}

interfere-append :
    (s : Entry) (is js : List Interference) → interfere s (is ++ js) ≡ interfere (interfere s is) js
unfolding interfere
interfere-append s [] js = refl
interfere-append s (written rev r ∷ is) js =
    interfere-append (compare_and_set s rev (next_envelope rev r)).1 is js
interfere-append s (gone ∷ is) js = interfere-append none is js

interfere-none : (is : List Interference) → interfere none is ≡ none
unfolding interfere compare_and_set
interfere-none [] = refl
interfere-none (written rev r ∷ is) = interfere-none is
interfere-none (gone ∷ is) = interfere-none is

-- What others leave of an entry: itself, or one with a later revision, or nothing.
abbrev Later : Envelope → Entry → Type 0
Later e s = (s ≡ some e) ⊎ ((s ≡ none) ⊎ ((f : Envelope) × (s ≡ some f) × (e.rev < f.rev)))

interfere-Later : (e : Envelope) (is : List Interference) → Later e (interfere (some e) is)
unfolding interfere compare_and_set
interfere-Later e [] = inl refl
interfere-Later e (gone ∷ is) = inr (inl (interfere-none is))
interfere-Later e (written rev r ∷ is) = elim (Bool-cases (e.rev == rev)) [
  | inr h ↦ rw (h, interfere) (interfere-Later e is)
  | inl h ↦ elim (interfere-Later (next_envelope rev r) is) [
    | inl same ↦ inr (inr (next_envelope rev r, rw (h, interfere) same, ground arith))
    | inr (inl n) ↦ inr (inl (rw (h, interfere) n))
    | inr (inr (f, at, later)) ↦ inr (inr (f, rw (h, interfere) at, ground arith))
  ]
]

-- An update as one step, taken after some of the steps of the others: it answers for the pairing as
-- they left it, and writes what the mutation makes of that very pairing.
pub record IsSerial {T : Type 0} (mutate : Pairing → Mutated T) (s : Entry) (v : T) (after : Entry)
    : Type 0 where
  pub others_first : List Interference
  pub seen : Envelope
  pub at_that_moment : interfere s others_first ≡ some seen
  pub answers : v ≡ (mutate seen.pairing).result
  pub writes : after ≡ (
      if (mutate seen.pairing).write
      then some (next_envelope seen.rev (mutate seen.pairing).draft)
      else some seen)

interfere-rev :
    (e c : Envelope) (is : List Interference) → interfere (some e) is ≡ some c → e.rev ≤ c.rev
interfere-rev e c is h = ground (arith, interfere-Later e is)

-- A script that has lost stands before a later revision.
lost-Later :
    (e new : Envelope) (is : List Interference)
    → (compare_and_set (interfere (some e) is) e.rev new).0 ≡ lost
    → (f : Envelope) × ((compare_and_set (interfere (some e) is) e.rev new).1 ≡ some f)
      × (e.rev < f.rev)
unfolding compare_and_set
lost-Later e new is h = elim (interfere-Later e is) [
  | inl same ↦ absurd (ground (arith, same))
  | inr (inl n) ↦ absurd (ground (arith, n))
  | inr (inr (f, at, later)) ↦ (f, rw at (ground arith), later)
]

CasResult-cases : (r : CasResult) → (r ≡ replaced) ⊎ ((r ≡ missing) ⊎ (r ≡ lost))
CasResult-cases replaced = inl refl
CasResult-cases missing = inr (inl refl)
CasResult-cases lost = inr (inr refl)

module _ {T : Type 0} (mutate : Pairing → Mutated T) where
  -- The script replaces only the envelope that was read.
  set-same :
      (e new : Envelope) (is : List Interference)
      → (compare_and_set (interfere (some e) is) e.rev new).0 ≡ replaced
      → (interfere (some e) is ≡ some e)
        × ((compare_and_set (interfere (some e) is) e.rev new).1 ≡ some new)
  unfolding compare_and_set
  set-same e new is h = elim (interfere-Later e is) [
    | inl same ↦ (same, rw same (ground arith))
    | inr (inl n) ↦ absurd (ground (arith, n))
    | inr (inr (f, at, later)) ↦ absurd (ground (arith, at))
  ]

  -- Whatever it does, the script leaves the envelope with its successor, or what the others left.
  set-lost :
      (e new : Envelope) (is : List Interference)
      → (compare_and_set (interfere (some e) is) e.rev new).0 ≡ lost
      → (compare_and_set (interfere (some e) is) e.rev new).1 ≡ interfere (some e) is
  unfolding compare_and_set
  set-lost e new is h = elim (Option-cases (interfere (some e) is)) [
    | inl n ↦ rw n refl
    | inr (f, at) ↦ ground (arith, at)
  ]

  -- What follows on some steps of the others follows on those and its own.
  behind :
      (s t : Entry) (is : List Interference) (v : T) (after : Entry)
      → interfere s is ≡ t
      → IsSerial mutate t v after
      → IsSerial mutate s v after
  behind s t is v after e p = record {
    others_first = is ++ p.others_first;
    seen = p.seen;
    at_that_moment =
        interfere-append s is p.others_first
        ∙ ap (λ x. interfere x p.others_first) e
        ∙ p.at_that_moment;
    answers = p.answers;
    writes = p.writes;
  }

  found-injective : (a b : T) → found a ≡ found b → a ≡ b
  found-injective a b e = cc

  attempt-IsSerial :
      (others : ℕ → List Interference × List Interference) (n : ℕ) (s : Entry) (v : T)
      → (attempt mutate others n s).0 ≡ found v
      → IsSerial mutate s v (attempt mutate others n s).1
  unfolding attempt
  attempt-IsSerial others zero s v h = absurd cc
  attempt-IsSerial others (suc n) s v h =
      let is = (others (suc n)).0 in
      let js = (others (suc n)).1 in
      elim (Option-cases (interfere s is)) [
        | inl e ↦ absurd (let miss = rw (e, attempt) at h in cc)
        | inr (c, e) ↦
            let m = mutate c.pairing in
            let new = next_envelope c.rev m.draft in
            let done = compare_and_set (interfere (some c) js) c.rev new in
            let here = rw (e, attempt) at h in
            elim (Bool-cases m.write) [
              | inr w ↦
                  rw (e, attempt, w)
                    (record {
                      others_first = is;
                      seen = c;
                      at_that_moment = e;
                      answers = sym (found-injective m.result v (rw w at here));
                      writes = rw w refl;
                    })
              | inl w ↦ elim (CasResult-cases done.0) [
                | inl r ↦
                    let (same, set) = set-same c new js r in
                    behind s (some c) is v _ e (
                      rw (e, attempt, w, r)
                        (record {
                          others_first = js;
                          seen = c;
                          at_that_moment = same;
                          answers = sym (found-injective m.result v (rw (w, r) at here));
                          writes = rw w set;
                        }))
                | inr (inl r) ↦ absurd (let miss = rw (w, r) at here in cc)
                | inr (inr r) ↦
                    let later = attempt-IsSerial others n done.1 v (rw (w, r) at here) in
                    let left : interfere s (is ++ js) ≡ done.1 =
                      interfere-append s is js
                      ∙ ap (λ x. interfere x js) e
                      ∙ sym (set-lost c new js r) in
                    behind s done.1 (is ++ js) v _ left (rw (e, attempt, w, r) later)
              ]
            ]
      ]

  -- An update that answers is one atomic step between those of other requests: it has applied the
  -- mutation to the pairing exactly as the others had left it, and nothing that they wrote is lost,
  -- however often it had to start again.
  pub update-IsSerial :
      (others : ℕ → List Interference × List Interference) (s : Entry) (v : T)
      → (update mutate others s).0 ≡ found v
      → IsSerial mutate s v (update mutate others s).1
  update-IsSerial others s v h = attempt-IsSerial others update_retries s v h

  attempt-busy :
      (others : ℕ → List Interference × List Interference) (n : ℕ) (e : Envelope)
      → (attempt mutate others n (some e)).0 ≡ busy
      → (f : Envelope) × ((attempt mutate others n (some e)).1 ≡ some f) × (e.rev + n ≤ f.rev)
  unfolding attempt
  attempt-busy others zero e h = (e, refl, omega arith)
  attempt-busy others (suc n) e h =
      let is = (others (suc n)).0 in
      let js = (others (suc n)).1 in
      elim (Option-cases (interfere (some e) is)) [
        | inl g ↦ absurd (let miss = rw (g, attempt) at h in cc)
        | inr (c, g) ↦
            let m = mutate c.pairing in
            let new = next_envelope c.rev m.draft in
            let done = compare_and_set (interfere (some c) js) c.rev new in
            let here = rw (g, attempt) at h in
            elim (Bool-cases m.write) [
              | inr w ↦ absurd (let got = rw w at here in cc)
              | inl w ↦ elim (CasResult-cases done.0) [
                | inl r ↦ absurd (let got = rw (w, r) at here in cc)
                | inr (inl r) ↦ absurd (let miss = rw (w, r) at here in cc)
                | inr (inr r) ↦
                    let (f, at, above) = lost-Later c new js r in
                    let (last, left, more) = attempt-busy others n f (rw (w, r, at) at here) in
                    (last, rw (g, attempt, w, r, at) left, omega (arith, interfere-rev e c is g))
              ]
            ]
      ]

  -- An update gives up only beside at least eight writes of others: the pairing is still there then,
  -- with a revision at least eight above the one that it had.
  pub update-busy :
      (others : ℕ → List Interference × List Interference) (e : Envelope)
      → (update mutate others (some e)).0 ≡ busy
      → (f : Envelope) × ((update mutate others (some e)).1 ≡ some f)
        × (e.rev + update_retries ≤ f.rev)
  update-busy others e h = attempt-busy others update_retries e h
