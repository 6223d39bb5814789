-- ===== src/Qr/Field.antt =====
-- src/lib/qr.ts: arithmetic in GF(256) and the Reed-Solomon code.
use asad.Base.{
  ℕ, zero, suc, ◌+◌, ◌-◌, ◌*◌, ◌≡◌, refl, Bool, true, ◌||◌, ◌&&◌, List, [], ◌∷◌, ◌++◌, ltb, ◌==◌,
  if◌then◌else◌, length, length-append, arith,
}
use Prim.Native.Nat.{bit_xor, bit_and}

-- One round of the loop that fills the tables: `x <<= 1; if (x & 0x100) x ^= 0x11d`.
unfoldable pub double : ℕ → ℕ
double x = if bit_and (x * 2) 0x100 == 0 then x * 2 else bit_xor (x * 2) 0x11d

unfoldable pub power : ℕ → ℕ
unfolding double
power zero = 1
power (suc i) = double (power i)

-- `EXP[i]`, which repeats after 255 entries
unfoldable pub exp : ℕ → ℕ
unfolding power
exp i = if ltb i 255 then power i else power (i - 255)

-- `LOG[x]`: the place below `n` of the last round that left `x`, or 0
unfoldable pub log_below : ℕ → ℕ → ℕ
unfolding power
log_below zero x = 0
log_below (suc i) x = let rest = log_below i x in if power i == x then i else rest

unfoldable pub log : ℕ → ℕ
unfolding log_below
log x = log_below 255 x

unfoldable pub mul : ℕ → ℕ → ℕ
unfolding exp log
mul a b = if a == 0 || b == 0 then 0 else exp (log a + log b)

-- `next[j] ^= poly[j]; next[j + 1] ^= poly[j] * EXP[i]`, with what `next[j]` holds already
unfoldable pub times_root : ℕ → ℕ → List ℕ → List ℕ
unfolding mul
times_root root carried [] = carried ∷ []
times_root root carried (p ∷ poly) = bit_xor carried (mul p 1) ∷ times_root root (mul p root) poly

-- The product of the first roots.
unfoldable pub generator_poly : ℕ → List ℕ
unfolding times_root
generator_poly zero = 1 ∷ []
generator_poly (suc degree) = times_root (exp degree) 0 (generator_poly degree)

-- `remainder[i] ^= mul(generator[i + 1], factor)`
unfoldable pub add_multiple : ℕ → List ℕ → List ℕ → List ℕ
unfolding mul
add_multiple factor [] generator = []
add_multiple factor (r ∷ remainder) [] = r ∷ remainder
add_multiple factor (r ∷ remainder) (g ∷ generator) =
    bit_xor r (mul g factor) ∷ add_multiple factor remainder generator

abbrev tail : List ℕ → List ℕ
tail [] = []
tail (x ∷ xs) = xs

-- One byte of the division.
unfoldable pub divide : List ℕ → List ℕ → ℕ → List ℕ
unfolding add_multiple
divide generator [] byte = []
divide generator (r ∷ remainder) byte =
    let factor = bit_xor byte r in
    let shifted = remainder ++ (0 ∷ []) in
    if factor == 0 then shifted else add_multiple factor shifted (tail generator)

unfoldable pub divide_all : List ℕ → List ℕ → List ℕ → List ℕ
unfolding divide
divide_all generator remainder [] = remainder
divide_all generator remainder (b ∷ data_left) =
    divide_all generator (divide generator remainder b) data_left

unfoldable pub no_remainder : ℕ → List ℕ
no_remainder zero = []
no_remainder (suc n) = 0 ∷ no_remainder n

unfoldable pub reed_solomon : List ℕ → ℕ → List ℕ
unfolding divide_all no_remainder generator_poly
reed_solomon block ecc = divide_all (generator_poly ecc) (no_remainder ecc) block

length-add_multiple :
    (factor : ℕ) (remainder generator : List ℕ)
    → length (add_multiple factor remainder generator) ≡ length remainder
unfolding add_multiple
length-add_multiple factor [] generator = refl
length-add_multiple factor (r ∷ remainder) [] = refl
length-add_multiple factor (r ∷ remainder) (g ∷ generator) =
    omega (arith, length-add_multiple factor remainder generator)

length-divide :
    (generator remainder : List ℕ) (byte : ℕ)
    → length (divide generator remainder byte) ≡ length remainder
unfolding divide
length-divide generator [] byte = refl
length-divide generator (r ∷ remainder) byte = ground (
  arith,
  length-append remainder (0 ∷ []),
  length-add_multiple (bit_xor byte r) (remainder ++ (0 ∷ [])) (tail generator),
)

length-divide_all :
    (generator remainder block : List ℕ)
    → length (divide_all generator remainder block) ≡ length remainder
unfolding divide_all
length-divide_all generator remainder [] = refl
length-divide_all generator remainder (b ∷ block) = omega (
  arith,
  length-divide_all generator (divide generator remainder b) block,
  length-divide generator remainder b,
)

length-no_remainder : (n : ℕ) → length (no_remainder n) ≡ n
unfolding no_remainder
length-no_remainder zero = refl
length-no_remainder (suc n) = omega (arith, length-no_remainder n)

pub length-reed_solomon : (block : List ℕ) (ecc : ℕ) → length (reed_solomon block ecc) ≡ ecc
unfolding reed_solomon
length-reed_solomon block ecc = omega (
  arith,
  length-divide_all (generator_poly ecc) (no_remainder ecc) block,
  length-no_remainder ecc,
)

-- Over all bytes that are not 0, by evaluation: `EXP` undoes `LOG`.
unfoldable pub undone_below : ℕ → Bool
unfolding exp log
undone_below zero = true
undone_below (suc n) = (exp (log (n + 1)) == n + 1) && undone_below n

undone_below_lem : undone_below 255 ≡ true
unfolding undone_below power
undone_below_lem = refl
