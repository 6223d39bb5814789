-- ===== src/RemoteMic/Frames.antt =====
-- src/remote-mic/relay-codec.ts: `FrameAccumulator`, which cuts a stream of samples into frames.
-- The buffer is modelled by the samples that fill it, and the loop takes fuel: `none` means that
-- the loop has not ended, which happens for a frame size of 0 only.
use mathlib.Core.List.{flatten}
use asad.Base.{
  ℕ, zero, suc, ◌-◌, ◌≤◌, ◌<◌, min, ◌≡◌, refl, sym, ap, ◌∙◌, inl, inr, Option, none, some, List, [],
  ◌∷◌, ◌++◌, append-nil, append_assoc, arith, All, length, length-append, length-drop, take, drop,
  take-append-drop, ◌==◌, if◌then◌else◌, Bool-cases,
}

module _ {A : Type 0} where
  -- The emitted frames and the samples that stay in the buffer.
  abbrev pub with_frame : List A → Option (List (List A) × List A) → Option (List (List A) × List A)
  with_frame f none = none
  with_frame f (some (fs, held)) = some (f ∷ fs, held)

  pub push_from : ℕ → ℕ → List A → List A → Option (List (List A) × List A)
  push_from zero size held [] = some ([], held)
  push_from zero size held (x ∷ xs) = none
  push_from (suc fuel) size held [] = some ([], held)
  push_from (suc fuel) size held (x ∷ xs) =
      let n = min (size - length held) (length (x ∷ xs)) in
      let filled = held ++ take n (x ∷ xs) in
      let emitted = with_frame filled (push_from fuel size [] (drop n (x ∷ xs))) in
      let waiting = push_from fuel size filled (drop n (x ∷ xs)) in
      if length filled == size then emitted else waiting

  -- As many rounds as there are samples are enough: each takes at least one.
  pub push : ℕ → List A → List A → Option (List (List A) × List A)
  push size held samples = push_from (length samples) size held samples

  -- What `push` promises: nothing is lost, repeated or moved, every frame has the full size, and
  -- less than a frame stays behind.
  pub record Cuts (size : ℕ) (held samples : List A) (r : Option (List (List A) × List A))
      : Type 0 where
    pub frames : List (List A)
    pub left : List A
    pub returns : r ≡ some (frames, left)
    pub whole : flatten frames ++ left ≡ held ++ samples
    pub full : All (λ f. length f ≡ size) frames
    pub partial : length left < size

  length-take : (n : ℕ) (xs : List A) → n ≤ length xs → length (take n xs) ≡ n
  length-take zero xs h = refl
  length-take (suc n) [] h = absurd (omega arith)
  length-take (suc n) (x ∷ xs) h = ap suc (length-take n xs (omega arith))

  push_from-Cuts :
      (fuel size : ℕ) (held samples : List A)
      → length held < size
      → length samples ≤ fuel
      → Cuts size held samples (push_from fuel size held samples)
  unfolding push_from flatten
  push_from-Cuts zero size held [] h enough = record {
    frames = [];
    left = held;
    returns = refl;
    whole = sym (append-nil held);
    full = tt;
    partial = h;
  }
  push_from-Cuts zero size held (x ∷ xs) h enough = absurd (omega arith)
  push_from-Cuts (suc fuel) size held [] h enough = record {
    frames = [];
    left = held;
    returns = refl;
    whole = sym (append-nil held);
    full = tt;
    partial = h;
  }
  push_from-Cuts (suc fuel) size held (x ∷ xs) h enough =
      let n : ℕ = min (size - length held) (length (x ∷ xs)) in
      let filled : List A = held ++ take n (x ∷ xs) in
      let rest : List A = drop n (x ∷ xs) in
      let taken = length-take n (x ∷ xs) (omega arith) in
      let grown = length-append held (take n (x ∷ xs)) in
      let shorter = length-drop n (x ∷ xs) in
      let split = take-append-drop n (x ∷ xs) in
      let rejoined : filled ++ rest ≡ held ++ x ∷ xs =
        append_assoc held (take n (x ∷ xs)) rest ∙ ap (λ z. held ++ z) split in
      elim (Bool-cases (length filled == size)) [
        | inl e ↦
            let c = push_from-Cuts fuel size [] rest (omega arith) (omega arith) in
            record {
              frames = filled ∷ c.frames;
              left = c.left;
              returns = rw (e, c.returns);
              whole =
                  append_assoc filled (flatten c.frames) c.left
                  ∙ ap (λ z. filled ++ z) c.whole
                  ∙ rejoined;
              full = (ground arith, c.full);
              partial = c.partial;
            }
        | inr e ↦
            let c = push_from-Cuts fuel size filled rest (ground arith) (omega arith) in
            record {
              frames = c.frames;
              left = c.left;
              returns = rw e c.returns;
              whole = c.whole ∙ rejoined;
              full = c.full;
              partial = c.partial;
            }
      ]

-- A push onto a buffer that is not full returns, cuts the held samples with the new ones into
-- frames of exactly the frame size, in order and without loss, and keeps less than one frame.
pub push-Cuts :
    {A : Type 0} (size : ℕ) (held samples : List A)
    → length held < size
    → Cuts size held samples (push size held samples)
unfolding push
push-Cuts size held samples h = push_from-Cuts (length samples) size held samples h (omega arith)
