-- ===== src/Engine/Chunks/Order.antt =====
-- src/interpreter/engine/chunks.ts: lists of chunks that grow without losing or moving anything.
use asad.Base.{Bool, List, [], ◌∷◌, ◌++◌, arith, keep, drop, zero, suc, ℕ, All}
use asad.Engine.Chunks.{Chunk}

-- `ys` holds `xs` in their order, each as it was, with others in between.
pub data Kept : List Chunk → List Chunk → Type 0 where
  done : (ys : List Chunk) → Kept [] ys
  same : {xs ys : List Chunk} (x : Chunk) → Kept xs ys → Kept (x ∷ xs) (x ∷ ys)
  extra : {xs ys : List Chunk} (y : Chunk) → Kept xs ys → Kept xs (y ∷ ys)

pub Kept-refl : (xs : List Chunk) → Kept xs xs
Kept-refl [] = done []
Kept-refl (x ∷ xs) = same x (Kept-refl xs)

pub Kept-trans : {xs ys zs : List Chunk} → Kept xs ys → Kept ys zs → Kept xs zs
Kept-trans (done ys) k = done _
Kept-trans (same x h) (same _ k) = same x (Kept-trans h k)
Kept-trans h (extra z k) = extra z (Kept-trans h k)
Kept-trans (extra y h) (same _ k) = extra y (Kept-trans h k)

pub Kept-append : (zs : List Chunk) {xs ys : List Chunk} → Kept xs ys → Kept xs (ys ++ zs)
Kept-append zs (done ys) = done _
Kept-append zs (same x k) = same x (Kept-append zs k)
Kept-append zs (extra y k) = extra y (Kept-append zs k)

pub Kept-prepend : (zs : List Chunk) {xs ys : List Chunk} → Kept xs ys → Kept xs (zs ++ ys)
Kept-prepend [] k = k
Kept-prepend (z ∷ zs) k = extra z (Kept-prepend zs k)

pub Kept-both : {xs ys us vs : List Chunk} → Kept xs ys → Kept us vs → Kept (xs ++ us) (ys ++ vs)
Kept-both (done ys) k = Kept-prepend ys k
Kept-both (same x h) k = same x (Kept-both h k)
Kept-both (extra y h) k = extra y (Kept-both h k)

pub Kept-keep : (p : Chunk → Bool) (xs : List Chunk) → Kept (keep p xs) xs
Kept-keep p [] = done []
Kept-keep p (x ∷ xs) = ground (arith, same x (Kept-keep p xs), extra x (Kept-keep p xs))

pub Kept-drop : (n : ℕ) (xs : List Chunk) → Kept (drop n xs) xs
Kept-drop zero xs = Kept-refl xs
Kept-drop (suc n) [] = done []
Kept-drop (suc n) (x ∷ xs) = extra x (Kept-drop n xs)

Kept-drop-more : (n : ℕ) (xs : List Chunk) → Kept (drop (suc n) xs) (drop n xs)
Kept-drop-more n [] = done _
Kept-drop-more zero (x ∷ xs) = extra x (Kept-refl xs)
Kept-drop-more (suc n) (x ∷ xs) = Kept-drop-more n xs

-- Without the first chunks of both.
pub Kept-drops : (n : ℕ) {xs ys : List Chunk} → Kept xs ys → Kept (drop n xs) (drop n ys)
Kept-drops zero k = k
Kept-drops (suc n) (done ys) = done _
Kept-drops (suc n) (same x k) = Kept-drops n k
Kept-drops (suc n) {xs} (extra y k) = Kept-trans (Kept-drop-more n xs) (Kept-drops n k)

-- What holds of all chunks of a list holds of all that it was made from.
pub Kept-All {κ} : (P : Chunk → Type κ) {xs ys : List Chunk} → Kept xs ys → All P ys → All P xs
Kept-All P (done ys) a = tt
Kept-All P (same x k) a = (a.0, Kept-All P k a.1)
Kept-All P (extra y k) a = Kept-All P k a.1
