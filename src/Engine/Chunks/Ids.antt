-- ===== src/Engine/Chunks/Ids.antt =====
-- src/interpreter/engine/chunks.ts: the ids of the chunks on screen are distinct.
use asad.Base.{
  ℕ, ◌+◌, ◌≤◌, ◌<◌, ◌≡◌, refl, false, List, [], ◌∷◌, ◌++◌, map, arith, All, All-append, length,
  ◌==◌,
}
use asad.Engine.Chunks.{ChunkDraft, Chunk, number_chunks}
use asad.Engine.Chunks.Order.{Kept, done, same, extra, Kept-All}

abbrev pub HasOther : ℕ → Chunk → Type 0
HasOther n c = (c.id.number == n) ≡ false

abbrev pub Distinct : List Chunk → Type 0
Distinct [] = Unit
Distinct (c ∷ cs) = All (HasOther c.id.number) cs × Distinct cs

abbrev pub IsBelow : ℕ → Chunk → Type 0
IsBelow next c = c.id.number < next

-- Distinct numbers, all drawn before `next`.
pub record IsStore (next : ℕ) (cs : List Chunk) : Type 0 where
  pub apart : Distinct cs
  pub drawn : All (IsBelow next) cs

Kept-Distinct : {xs ys : List Chunk} → Kept xs ys → Distinct ys → Distinct xs
Kept-Distinct (done ys) d = tt
Kept-Distinct (same x k) d = (Kept-All (HasOther x.id.number) k d.0, Kept-Distinct k d.1)
Kept-Distinct (extra y k) d = Kept-Distinct k d.1

pub Kept-IsStore : (next : ℕ) {xs ys : List Chunk} → Kept xs ys → IsStore next ys → IsStore next xs
Kept-IsStore next k s = record {
  apart = Kept-Distinct k s.apart;
  drawn = Kept-All (IsBelow next) k s.drawn;
}

module _ (f : Chunk → Chunk) (kept : (c : Chunk) → (f c).id.number ≡ c.id.number) where
  map-HasOther : (n : ℕ) (cs : List Chunk) → All (HasOther n) cs → All (HasOther n) (map f cs)
  map-HasOther n [] a = tt
  map-HasOther n (c ∷ cs) a = (rw (kept c) a.0, map-HasOther n cs a.1)

  map-Distinct : (cs : List Chunk) → Distinct cs → Distinct (map f cs)
  map-Distinct [] d = tt
  map-Distinct (c ∷ cs) d = (rw (kept c) (map-HasOther c.id.number cs d.0), map-Distinct cs d.1)

  map-IsBelow : (next : ℕ) (cs : List Chunk) → All (IsBelow next) cs → All (IsBelow next) (map f cs)
  map-IsBelow next [] a = tt
  map-IsBelow next (c ∷ cs) a = (rw (kept c) a.0, map-IsBelow next cs a.1)

  pub map-IsStore : (next : ℕ) (cs : List Chunk) → IsStore next cs → IsStore next (map f cs)
  map-IsStore next cs s = record {
    apart = map-Distinct cs s.apart;
    drawn = map-IsBelow next cs s.drawn;
  }

  part-HasOther :
      (n : ℕ) (xs ys : List Chunk) → All (HasOther n) (xs ++ ys) → All (HasOther n) (map f xs ++ ys)
  part-HasOther n [] ys a = a
  part-HasOther n (x ∷ xs) ys a = (rw (kept x) a.0, part-HasOther n xs ys a.1)

  part-IsBelow :
      (next : ℕ) (xs ys : List Chunk)
      → All (IsBelow next) (xs ++ ys)
      → All (IsBelow next) (map f xs ++ ys)
  part-IsBelow next [] ys a = a
  part-IsBelow next (x ∷ xs) ys a = (rw (kept x) a.0, part-IsBelow next xs ys a.1)

  part-Distinct : (xs ys : List Chunk) → Distinct (xs ++ ys) → Distinct (map f xs ++ ys)
  part-Distinct [] ys d = d
  part-Distinct (x ∷ xs) ys d =
      (rw (kept x) (part-HasOther x.id.number xs ys d.0), part-Distinct xs ys d.1)

  pub part-IsStore :
      (next : ℕ) (xs ys : List Chunk) → IsStore next (xs ++ ys) → IsStore next (map f xs ++ ys)
  part-IsStore next xs ys s = record {
    apart = part-Distinct xs ys s.apart;
    drawn = part-IsBelow next xs ys s.drawn;
  }

All-weaken {ℓ κ} :
    (P : Chunk → Type ℓ) (Q : Chunk → Type κ)
    → ((c : Chunk) → P c → Q c)
    → (cs : List Chunk) → All P cs
    → All Q cs
All-weaken P Q f [] a = tt
All-weaken P Q f (c ∷ cs) a = (f c a.0, All-weaken P Q f cs a.1)

All-split {κ} : (P : Chunk → Type κ) (xs ys : List Chunk) → All P (xs ++ ys) → All P xs × All P ys
All-split P [] ys a = (tt, a)
All-split P (x ∷ xs) ys a = let (l, r) = All-split P xs ys a.1 in ((a.0, l), r)

-- Numbers from `lo` on, below `hi`.
abbrev pub InRange : ℕ → ℕ → Chunk → Type 0
InRange lo hi c = (lo ≤ c.id.number) × (c.id.number < hi)

module _ (build : ChunkDraft → ℕ → Chunk)
    (numbered : (d : ChunkDraft) (n : ℕ) → (build d n).id.number ≡ n) where
  pub number_chunks-InRange :
      (lo hi : ℕ) (ds : List ChunkDraft)
      → lo + length ds ≡ hi
      → All (InRange lo hi) (number_chunks build lo ds)
  unfolding number_chunks
  number_chunks-InRange lo hi [] e = tt
  number_chunks-InRange lo hi (d ∷ ds) e = (
    rw (numbered d lo) (omega arith, omega arith),
    All-weaken (InRange (lo + 1) hi) (InRange lo hi) (λ c r. (omega arith, r.1))
        (number_chunks build (lo + 1) ds) (number_chunks-InRange (lo + 1) hi ds (omega arith)),
  )

  number_chunks-Distinct : (lo : ℕ) (ds : List ChunkDraft) → Distinct (number_chunks build lo ds)
  unfolding number_chunks
  number_chunks-Distinct lo [] = tt
  number_chunks-Distinct lo (d ∷ ds) = (
    rw (numbered d lo) (
        All-weaken (InRange (lo + 1) (lo + 1 + length ds)) (HasOther lo)
          (λ c r. ground (arith, r.0)) (number_chunks build (lo + 1) ds)
          (number_chunks-InRange (lo + 1) (lo + 1 + length ds) ds refl)),
    number_chunks-Distinct (lo + 1) ds,
  )

-- New chunks between older ones.
between-Distinct :
    (next hi : ℕ) (xs ns ys : List Chunk)
    → Distinct (xs ++ ys)
    → All (IsBelow next) (xs ++ ys)
    → Distinct ns
    → All (InRange next hi) ns
    → Distinct (xs ++ (ns ++ ys))
between-Distinct next hi [] [] ys d b e r = d
between-Distinct next hi [] (n ∷ ns) ys d b e r = (
  All-append (HasOther n.id.number) ns ys e.0
      (All-weaken (IsBelow next) (HasOther n.id.number) (λ c h. ground (arith, r.0)) ys b),
  between-Distinct next hi [] ns ys d b e.1 r.1,
)
between-Distinct next hi (x ∷ xs) ns ys d b e r =
    let (l, q) = All-split (HasOther x.id.number) xs ys d.0 in
    (
      All-append (HasOther x.id.number) xs (ns ++ ys) l (
          All-append (HasOther x.id.number) ns ys
            (All-weaken (InRange next hi) (HasOther x.id.number) (λ c h. ground (arith, b.0)) ns r)
            q),
      between-Distinct next hi xs ns ys d.1 b.1 e r,
    )

-- A store into which chunks with the next numbers are put, anywhere, is a store of the number
-- after them.
pub between-IsStore :
    (build : ChunkDraft → ℕ → Chunk)
    → ((d : ChunkDraft) (n : ℕ) → (build d n).id.number ≡ n)
    → (next : ℕ) (xs ys : List Chunk) (ds : List ChunkDraft) → IsStore next (xs ++ ys)
    → IsStore (next + length ds) (xs ++ (number_chunks build next ds ++ ys))
between-IsStore build numbered next xs ys ds s =
    let ns = number_chunks build next ds in
    let hi : ℕ = next + length ds in
    let r = number_chunks-InRange build numbered next hi ds refl in
    let (l, q) = All-split (IsBelow next) xs ys s.drawn in
    let lift : (cs : List Chunk) → All (IsBelow next) cs → All (IsBelow hi) cs =
      All-weaken (IsBelow next) (IsBelow hi) (λ c h. omega arith) in
    record {
      apart =
          between-Distinct next hi xs ns ys s.apart s.drawn
            (number_chunks-Distinct build numbered next ds) r;
      drawn = All-append (IsBelow hi) xs (ns ++ ys) (lift xs l) (
          All-append (IsBelow hi) ns ys
            (All-weaken (InRange next hi) (IsBelow hi) (λ c h. h.1) ns r) (lift ys q));
    }
