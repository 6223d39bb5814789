-- ===== src/Qr/Deal.antt =====
-- src/lib/qr.ts: a reader that takes the interleaved codewords apart again.
use asad.Base.{
  ℕ, zero, suc, ◌+◌, ◌≡◌, refl, ap, ap₂, true, false, List, [], ◌∷◌, ◌++◌, ltb, if◌then◌else◌,
  length, take, drop, arith, append_assoc, inl, inr, Bool-cases,
}
use asad.Qr.Blocks.{nth, column, columns}

-- One byte for each block that is longer than the place, and what is left of the stream.
unfoldable pub pieces : ℕ → List ℕ → List ℕ → List (List ℕ)
pieces i [] s = []
pieces i (l ∷ lengths) s =
    let here = pieces i lengths (drop 1 s) in
    let none_here = pieces i lengths s in if ltb i l then take 1 s ∷ here else [] ∷ none_here

unfoldable pub left_over : ℕ → List ℕ → List ℕ → List ℕ
left_over i [] s = s
left_over i (l ∷ lengths) s =
    let here = left_over i lengths (drop 1 s) in
    let none_here = left_over i lengths s in if ltb i l then here else none_here

unfoldable pub join : List (List ℕ) → List (List ℕ) → List (List ℕ)
join [] bs = bs
join (a ∷ as_left) [] = a ∷ as_left
join (a ∷ as_left) (b ∷ bs) = (a ++ b) ∷ join as_left bs

abbrev pub nothing_of : List ℕ → List (List ℕ)
nothing_of [] = []
nothing_of (l ∷ lengths) = [] ∷ nothing_of lengths

-- The blocks of the given lengths, from so many places of the stream.
unfoldable pub deal : ℕ → ℕ → List ℕ → List ℕ → List (List ℕ)
unfolding pieces left_over join
deal i zero lengths s = nothing_of lengths
deal i (suc n) lengths s =
    join (pieces i lengths s) (deal (i + 1) n lengths (left_over i lengths s))

abbrev pub lengths_of : List (List ℕ) → List ℕ
lengths_of [] = []
lengths_of (b ∷ bs) = length b ∷ lengths_of bs

-- The part of each block from a place on.
abbrev pub parts : ℕ → ℕ → List (List ℕ) → List (List ℕ)
parts i n [] = []
parts i n (b ∷ bs) = take n (drop i b) ∷ parts i n bs

nth-short : (i : ℕ) (b : List ℕ) → ltb i (length b) ≡ false → nth i b ≡ []
unfolding nth
nth-short i [] h = refl
nth-short zero (x ∷ b) h = absurd (ground arith)
nth-short (suc i) (x ∷ b) h = nth-short i b (ground arith)

nth-long :
    (i : ℕ) (b s : List ℕ)
    → ltb i (length b) ≡ true
    → (take 1 (nth i b ++ s) ≡ nth i b) × (drop 1 (nth i b ++ s) ≡ s)
unfolding nth
nth-long i [] s h = absurd (ground arith)
nth-long zero (x ∷ b) s h = (refl, refl)
nth-long (suc i) (x ∷ b) s h = nth-long i b s (ground arith)

nths : ℕ → List (List ℕ) → List (List ℕ)
nths i [] = []
nths i (b ∷ bs) = nth i b ∷ nths i bs

pieces-column :
    (i : ℕ) (bs : List (List ℕ)) (s : List ℕ)
    → (pieces i (lengths_of bs) (column i bs ++ s) ≡ nths i bs)
      × (left_over i (lengths_of bs) (column i bs ++ s) ≡ s)
unfolding pieces left_over column nths
pieces-column i [] s = (refl, refl)
pieces-column i (b ∷ bs) s =
    let h = pieces-column i bs s in
    let e = append_assoc (nth i b) (column i bs) s in
    elim (Bool-cases (ltb i (length b))) [
      | inl l ↦
          let (t, d) = nth-long i b (column i bs ++ s) l in
          rw (l, e, t, d) (ap (λ xs. nth i b ∷ xs) h.0, h.1)
      | inr l ↦ rw (l, e, nth-short i b l) (ap (λ xs. [] ∷ xs) h.0, h.1)
    ]

take-nil : (n : ℕ) → take {A = ℕ} n [] ≡ []
take-nil zero = refl
take-nil (suc n) = refl

nth-take_next :
    (i n : ℕ) (b : List ℕ) → nth i b ++ take n (drop (suc i) b) ≡ take (suc n) (drop i b)
unfolding nth
nth-take_next zero n [] = take-nil n
nth-take_next (suc i) n [] = take-nil n
nth-take_next zero n (x ∷ b) = refl
nth-take_next (suc i) n (x ∷ b) = nth-take_next i n b

nth-take : (i n : ℕ) (b : List ℕ) → nth i b ++ take n (drop (i + 1) b) ≡ take (suc n) (drop i b)
nth-take i n b = let e : i + 1 ≡ suc i = omega arith in rw (e) (nth-take_next i n b)

join-parts :
    (i n : ℕ) (bs : List (List ℕ)) → join (nths i bs) (parts (i + 1) n bs) ≡ parts i (suc n) bs
unfolding join nths
join-parts i n [] = refl
join-parts i n (b ∷ bs) = ap₂ (λ x xs. x ∷ xs) (nth-take i n b) (join-parts i n bs)

nothing_of-parts : (i : ℕ) (bs : List (List ℕ)) → nothing_of (lengths_of bs) ≡ parts i 0 bs
nothing_of-parts i [] = refl
nothing_of-parts i (b ∷ bs) = ap (λ xs. [] ∷ xs) (nothing_of-parts i bs)

-- Dealing out what was interleaved gives the parts of the blocks back, whatever follows.
pub deal-columns :
    (i n : ℕ) (bs : List (List ℕ)) (s : List ℕ)
    → deal i n (lengths_of bs) (columns i n bs ++ s) ≡ parts i n bs
unfolding deal columns
deal-columns i zero bs s = nothing_of-parts i bs
deal-columns i (suc n) bs s =
    let e = append_assoc (column i bs) (columns (i + 1) n bs) s in
    let (p, l) = pieces-column i bs (columns (i + 1) n bs ++ s) in
    rw (e, p, l, deal-columns (i + 1) n bs s) (join-parts i n bs)
