-- ===== src/Qr/Bits.antt =====
-- src/lib/qr.ts: numbers and bytes as bits, and back.
use asad.Base.{
  ℕ, zero, suc, ◌+◌, ◌*◌, ◌/◌, ◌%◌, ◌^◌, ◌<◌, ◌≡◌, refl, ap, ap₂, sym, ◌∙◌, List, [], ◌∷◌, ◌++◌,
  append_assoc, arith, All, All-append, length, drop, length-append,
}
use native.Mathlib.Nat.{
  mul-le-mul_right, div-add-mod, mod-lt, mul-add-mod_self_left, mod-eq_of_lt, pow-suc,
}
use asad.Qr.Encode.{bits_of, bits_of_bytes, number_of, bytes_of, zeros}

abbrev pub IsBit : ℕ → Type 0
IsBit b = b < 2

abbrev pub IsByte : ℕ → Type 0
IsByte b = b < 256

pow_pos : (n : ℕ) → 0 < 2 ^ n
pow_pos zero = omega arith
pow_pos (suc n) = omega (arith, pow_pos n, pow-suc 2 n)

-- The digit at a power of two, and the digits below it.
mod-step : (x p : ℕ) → 0 < p → x % (p * 2) ≡ x / p % 2 * p + x % p
mod-step x p h =
    let a : p * (x / p) + x % p ≡ x = div-add-mod x p in
    let b : 2 * (x / p / 2) + x / p % 2 ≡ x / p = div-add-mod (x / p) 2 in
    let q = x / p / 2 in
    let r = x / p % 2 * p + x % p in
    let c : p * 2 * q + r ≡ x = omega (arith, ap (λ y. p * y) b) in
    let l : r < p * 2 = omega (
      arith,
      mul-le-mul_right {m = x / p % 2} {n = 1} p
          (omega (arith, mod-lt (x / p) {m = 2} (omega arith))),
      mod-lt x h,
    ) in
    ap (λ y. y % (p * 2)) (sym c) ∙ (mul-add-mod_self_left (p * 2) q r ∙ mod-eq_of_lt l)

pub length-bits_of : (x n : ℕ) → length (bits_of x n) ≡ n
unfolding bits_of
length-bits_of x zero = refl
length-bits_of x (suc n) = omega (arith, length-bits_of x n)

pub drop-bits_of : (x n : ℕ) (rest : List ℕ) → drop n (bits_of x n ++ rest) ≡ rest
unfolding bits_of
drop-bits_of x zero rest = refl
drop-bits_of x (suc n) rest = drop-bits_of x n rest

pub bits_of-All : (x n : ℕ) → All IsBit (bits_of x n)
unfolding bits_of
bits_of-All x zero = tt
bits_of-All x (suc n) = (mod-lt (x / 2 ^ n) (omega arith), bits_of-All x n)

pub number_of-bits_of :
    (n acc x : ℕ) (rest : List ℕ) → number_of n acc (bits_of x n ++ rest) ≡ acc * 2 ^ n + x % 2 ^ n
unfolding number_of bits_of
number_of-bits_of zero acc x rest = omega arith
number_of-bits_of (suc n) acc x rest =
    let h = number_of-bits_of n (acc * 2 + x / 2 ^ n % 2) x rest in
    let p : 2 ^ suc n ≡ 2 ^ n * 2 = pow-suc 2 n in
    let m : x % 2 ^ suc n ≡ x / 2 ^ n % 2 * 2 ^ n + x % 2 ^ n =
      ap (λ y. x % y) p ∙ mod-step x (2 ^ n) (pow_pos n) in
    h ∙ omega (arith, ap (λ y. acc * y) p, m)

-- Eight bits are those of the byte that they make.
bits_of-number_of :
    (a b c d e f g h : ℕ) (rest : List ℕ)
    → All IsBit (a ∷ b ∷ c ∷ d ∷ e ∷ f ∷ g ∷ h ∷ [])
    → bits_of (number_of 8 0 (a ∷ b ∷ c ∷ d ∷ e ∷ f ∷ g ∷ h ∷ rest)) 8
      ≡ a ∷ b ∷ c ∷ d ∷ e ∷ f ∷ g ∷ h ∷ []
unfolding bits_of number_of
bits_of-number_of a b c d e f g h rest bits =
    ap₂ (λ x xs. x ∷ xs) (omega arith)
      (ap₂ (λ x xs. x ∷ xs) (omega arith)
        (ap₂ (λ x xs. x ∷ xs) (omega arith)
          (ap₂ (λ x xs. x ∷ xs) (omega arith)
            (ap₂ (λ x xs. x ∷ xs) (omega arith)
              (ap₂ (λ x xs. x ∷ xs) (omega arith)
                (ap₂ (λ x xs. x ∷ xs) (omega arith) (ap₂ (λ x xs. x ∷ xs) (omega arith) refl)))))))

-- Cutting bits into bytes loses nothing.
pub bits_of_bytes-bytes_of :
    (n : ℕ) (bits : List ℕ)
    → length bits ≡ 8 * n
    → All IsBit bits
    → bits_of_bytes (bytes_of n bits) ≡ bits
unfolding bits_of_bytes bytes_of number_of
bits_of_bytes-bytes_of zero [] l h = refl
bits_of_bytes-bytes_of zero (x ∷ xs) l h = absurd (omega arith)
bits_of_bytes-bytes_of (suc n) (a ∷ b ∷ c ∷ d ∷ e ∷ f ∷ g ∷ i ∷ rest) l h =
    let (p, (q, (r, (s, (t, (u, (v, (w, k)))))))) = h in
    ap₂ (λ x y. x ++ y)
      (bits_of-number_of a b c d e f g i rest (p, (q, (r, (s, (t, (u, (v, (w, tt)))))))))
      (bits_of_bytes-bytes_of n rest (omega arith) k)
bits_of_bytes-bytes_of (suc n) _ l h = absurd (omega arith)

pub length-bytes_of : (n : ℕ) (bits : List ℕ) → length (bytes_of n bits) ≡ n
unfolding bytes_of
length-bytes_of zero bits = refl
length-bytes_of (suc n) bits = omega (arith, length-bytes_of n (drop 8 bits))

-- Reading bytes from their bits gives them back.
pub bytes_of-bits_of_bytes :
    (bytes rest : List ℕ)
    → All IsByte bytes
    → bytes_of (length bytes) (bits_of_bytes bytes ++ rest) ≡ bytes
unfolding bytes_of bits_of_bytes
bytes_of-bits_of_bytes [] rest h = refl
bytes_of-bits_of_bytes (b ∷ bytes) rest h =
    let e = number_of-bits_of 8 0 b (bits_of_bytes bytes ++ rest) in
    ap₂ (λ x xs. x ∷ xs) (e ∙ omega (arith, h.0)) (bytes_of-bits_of_bytes bytes rest h.1)

pub bits_of_bytes-append :
    (xs ys : List ℕ) → bits_of_bytes (xs ++ ys) ≡ bits_of_bytes xs ++ bits_of_bytes ys
unfolding bits_of_bytes
bits_of_bytes-append [] ys = refl
bits_of_bytes-append (x ∷ xs) ys =
    ap (λ z. bits_of x 8 ++ z) (bits_of_bytes-append xs ys)
    ∙ sym (append_assoc (bits_of x 8) (bits_of_bytes xs) (bits_of_bytes ys))

pub length-bits_of_bytes : (xs : List ℕ) → length (bits_of_bytes xs) ≡ 8 * length xs
unfolding bits_of_bytes
length-bits_of_bytes [] = refl
length-bits_of_bytes (x ∷ xs) = omega (
  arith,
  length-append (bits_of x 8) (bits_of_bytes xs),
  length-bits_of x 8,
  length-bits_of_bytes xs,
)

pub bits_of_bytes-All : (xs : List ℕ) → All IsBit (bits_of_bytes xs)
unfolding bits_of_bytes
bits_of_bytes-All [] = tt
bits_of_bytes-All (x ∷ xs) =
    All-append IsBit (bits_of x 8) (bits_of_bytes xs) (bits_of-All x 8) (bits_of_bytes-All xs)

pub zeros-All : (n : ℕ) → (length (zeros n) ≡ n) × All IsBit (zeros n)
unfolding zeros
zeros-All zero = (refl, tt)
zeros-All (suc n) = ground (arith, zeros-All n)
