-- ===== src/RemoteMic/Codec.antt =====
-- src/remote-mic/relay-codec.ts: one sample to one byte of G.711 and back. A sample is the integer
-- that `Math.round` gives; a test of one bit and the parts of a byte are written by division, and
-- `~x & 0xff` of a byte is `255 - x`. Minus zero is zero.
use asad.Base.{
  ℕ, zero, suc, ◌+◌, ◌-◌, ◌*◌, ◌/◌, ◌%◌, ◌^◌, ◌≤◌, ◌<◌, min, ◌≡◌, ◌≢◌, refl, ◌∙◌, ◌⊎◌, inl, inr,
  Bool, true, false, ◌&&◌, ◌||◌, arith, ltb, ◌==◌, if◌then◌else◌, Bool-cases,
}
use asad.Base.Int.{ℤ, pos, negsuc, magnitude, neg}

abbrev pub bias : ℕ
bias = 0x84

abbrev pub clip : ℕ
clip = 32635

abbrev pub is_negative : ℤ → Bool
is_negative (pos n) = false
is_negative (negsuc n) = true

-- The loop for the exponent: `rounds` is the exponent, and the mask falls with it.
unfoldable pub exponent_from : ℕ → ℕ → ℕ → ℕ
exponent_from zero mask value = 0
exponent_from (suc e) mask value =
    let rest = exponent_from e (mask / 2) value in if (value / mask) % 2 == 0 then rest else suc e

-- The sample is first held to 16 bits, then to the clip: the smaller bound decides.
unfoldable pub linear_to_mulaw : ℤ → ℕ
linear_to_mulaw sample =
    let sign = if is_negative sample then 0x80 else 0 in
    let value =
      min (min (magnitude sample) (if is_negative sample then 32768 else 32767)) clip + bias in
    let exponent = exponent_from 7 0x4000 value in
    let mantissa = (value / 2 ^ (exponent + 3)) % 16 in 255 - (sign + exponent * 16 + mantissa)

-- The size of the sample that a byte stands for.
unfoldable pub mulaw_magnitude : ℕ → ℕ
mulaw_magnitude byte =
    let value = 255 - byte in
    let exponent = (value / 16) % 8 in
    let mantissa = value % 16 in (mantissa * 8 + bias) * 2 ^ exponent - bias

unfoldable pub mulaw_to_linear : ℕ → ℤ
mulaw_to_linear byte =
    if ltb byte 128 then neg (mulaw_magnitude byte) else pos (mulaw_magnitude byte)

-- Checked at each byte below `n`.
round_trips : ℕ → Bool
round_trips zero = true
round_trips (suc n) = (linear_to_mulaw (mulaw_to_linear n) == n || n == 127) && round_trips n

round_trips-all : round_trips 256 ≡ true
unfolding round_trips linear_to_mulaw mulaw_to_linear exponent_from mulaw_magnitude
round_trips-all = refl

round_trips_sound :
    (n b : ℕ) → round_trips n ≡ true → b < n → (linear_to_mulaw (mulaw_to_linear b) ≡ b) ⊎ (b ≡ 127)
unfolding round_trips
round_trips_sound zero b h lt = absurd (omega arith)
round_trips_sound (suc n) b h lt = ground (arith, round_trips_sound n b)

-- Encoding the sample that a byte stands for gives the byte again, for every byte but 0x7f, the
-- second zero of G.711.
pub mulaw_round_trip : (b : ℕ) → b < 256 → b ≢ 127 → linear_to_mulaw (mulaw_to_linear b) ≡ b
mulaw_round_trip b h n = elim (round_trips_sound 256 b round_trips-all h) [
  | inl e ↦ e
  | inr e ↦ absurd (n e)
]

-- The loop finds the segment of the value.
exponent_segment :
    (value : ℕ)
    → bias ≤ value
    → value < 32768
    → let e = exponent_from 7 0x4000 value in
      (e ≤ 7) × (2 ^ (e + 7) ≤ value) × (value < 2 ^ (e + 8))
unfolding exponent_from
exponent_segment value h lt = ground arith

-- The sample that the byte of segment `e` and the mantissa of `value` stands for lies within half
-- a step, which is at most a thirty-second of the biased value.
segment_error :
    (e value : ℕ)
    → e ≤ 7
    → 2 ^ (e + 7) ≤ value
    → value < 2 ^ (e + 8)
    → let back = ((value / 2 ^ (e + 3)) % 16 * 8 + bias) * 2 ^ e in
      (32 * back ≤ 33 * value) × (31 * value ≤ 32 * back) × (bias ≤ back)
segment_error zero value h lo hi = omega arith
segment_error (suc zero) value h lo hi = omega arith
segment_error (suc (suc zero)) value h lo hi = omega arith
segment_error (suc (suc (suc zero))) value h lo hi = omega arith
segment_error (suc (suc (suc (suc zero)))) value h lo hi = omega arith
segment_error (suc (suc (suc (suc (suc zero))))) value h lo hi = omega arith
segment_error (suc (suc (suc (suc (suc (suc zero)))))) value h lo hi = omega arith
segment_error (suc (suc (suc (suc (suc (suc (suc zero))))))) value h lo hi = omega arith
segment_error (suc (suc (suc (suc (suc (suc (suc (suc e)))))))) value h lo hi = absurd (omega arith)

-- The parts of a byte are read back.
byte_parts :
    (sign e m : ℕ)
    → (sign ≡ 0) ⊎ (sign ≡ 128)
    → e ≤ 7
    → m < 16
    → let byte = 255 - (sign + e * 16 + m) in
      (((255 - byte) / 16) % 8 ≡ e)
      × ((255 - byte) % 16 ≡ m)
      × (ltb byte 128 ≡ (if sign == 0 then false else true))
byte_parts sign e m s h lt = (omega arith, omega arith, ground arith)

abbrev sign_bit : ℤ → ℕ
sign_bit s = if is_negative s then 0x80 else 0

abbrev clipped : ℤ → ℕ
clipped s = min (min (magnitude s) (if is_negative s then 32768 else 32767)) clip

clipped-eq : (s : ℤ) → clipped s ≡ min (magnitude s) clip
clipped-eq s = ground arith

sign_cases : (s : ℤ) → (sign_bit s ≡ 0) ⊎ (sign_bit s ≡ 128)
sign_cases (pos n) = inl refl
sign_cases (negsuc n) = inr refl

magnitude-neg : (n : ℕ) → magnitude (neg n) ≡ n
magnitude-neg zero = refl
magnitude-neg (suc n) = refl

magnitude-mulaw_to_linear : (b : ℕ) → magnitude (mulaw_to_linear b) ≡ mulaw_magnitude b
unfolding mulaw_to_linear
magnitude-mulaw_to_linear b = ground (arith, magnitude-neg (mulaw_magnitude b))

mulaw_magnitude-parts :
    (b e m : ℕ)
    → ((255 - b) / 16) % 8 ≡ e
    → (255 - b) % 16 ≡ m
    → mulaw_magnitude b ≡ (m * 8 + bias) * 2 ^ e - bias
unfolding mulaw_magnitude
mulaw_magnitude-parts b e m p q = rw (p, q) refl

negative-above : (b : ℕ) → is_negative (mulaw_to_linear b) ≡ true → ltb b 128 ≡ true
unfolding mulaw_to_linear
negative-above b h = ground arith

-- Decoding an encoded sample gives the sample, clipped to 32635, back to within about a
-- thirty-second of its size, and never a negative sample for one that was not negative.
pub mulaw_error :
    (s : ℤ)
    → let c = min (magnitude s) clip in
      let d = mulaw_to_linear (linear_to_mulaw s) in
      (32 * magnitude d ≤ 33 * c + 132)
      × (31 * c ≤ 32 * magnitude d + 132)
      × ((is_negative d ≡ false) ⊎ (is_negative s ≡ true))
unfolding linear_to_mulaw
mulaw_error s =
    let value : ℕ = clipped s + bias in
    let e : ℕ = exponent_from 7 0x4000 value in
    let m : ℕ = (value / 2 ^ (e + 3)) % 16 in
    let b : ℕ = 255 - (sign_bit s + e * 16 + m) in
    let segment = exponent_segment value (omega arith) (omega arith) in
    let near = segment_error e value segment.0 segment.1 segment.2 in
    let parts = byte_parts (sign_bit s) e m (sign_cases s) segment.0 (omega arith) in
    let back = magnitude-mulaw_to_linear b ∙ mulaw_magnitude-parts b e m parts.0 parts.1 in
    rw back (
      omega (arith, clipped-eq s),
      omega (arith, clipped-eq s),
      elim (Bool-cases (is_negative (mulaw_to_linear b))) [
        | inl h ↦ inr (ground (arith, negative-above b h, parts.2))
        | inr h ↦ inl h
      ],
    )
