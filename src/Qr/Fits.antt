-- ===== src/Qr/Fits.antt =====
-- src/lib/qr.ts: the version that `encodeQr` picks, and what it holds.
use asad.Base.{
  ℕ, zero, suc, ◌+◌, ◌-◌, ◌*◌, ◌/◌, ◌^◌, ◌≤◌, ◌<◌, min, ◌≡◌, refl, subst, some, List, [], ◌∷◌, ◌++◌,
  inl, inr, ◌⊎◌, Bool-cases, arith, All, length, length-append, leb, is_some,
}
use asad.Qr.Encode.{
  Version, versions, capacity, count_bits, header_bytes, bits_of, bits_of_bytes, pad_to_byte,
  to_bytes, pad_bytes, payload, terminated, padded, encode_data, pick, pick_version,
}
use asad.Qr.Bits.{IsByte, length-bits_of, length-bytes_of, length-bits_of_bytes}
use asad.Qr.RoundTrip.{decode_data, decode_data-encode_data, length-pad_to_byte}

-- The bytes fit into a version.
abbrev pub Fits : ℕ → Version → Type 0
Fits n v = n + header_bytes v ≤ capacity v

pub pick-All :
    (Q : Version → Type 0) (vs : List Version) (n : ℕ) (v : Version)
    → All Q vs
    → pick vs n ≡ some v
    → Q v × Fits n v
unfolding pick
pick-All Q [] n v a e = cc
pick-All Q (w ∷ vs) n v a e = elim (Bool-cases (leb (n + header_bytes w) (capacity w))) [
  | inl h ↦ let same : w ≡ v = cc in subst (λ x. Q x × Fits n x) same (a.0, ground arith)
  | inr h ↦ pick-All Q vs n v a.1 (rw (h, pick) at e)
]

-- A count of the bytes that a version holds fits its count field.
abbrev IsCounted : Version → Type 0
IsCounted v = capacity v < 2 ^ count_bits v

versions-IsCounted : All IsCounted versions
versions-IsCounted = ground arith

length-payload :
    (utf8 : List ℕ) (v : Version) → length (payload utf8 v) ≡ 4 + count_bits v + 8 * length utf8
unfolding payload
length-payload utf8 v =
    let c = count_bits v in
    omega (
      arith,
      length-append (bits_of 4 4) (bits_of (length utf8) c ++ bits_of_bytes utf8),
      length-append (bits_of (length utf8) c) (bits_of_bytes utf8),
      length-bits_of 4 4,
      length-bits_of (length utf8) c,
      length-bits_of_bytes utf8,
    )

length-terminated :
    (bits : List ℕ) (room : ℕ)
    → length (terminated bits room) ≡ length bits + min 4 (room - length bits)
unfolding terminated
length-terminated bits room =
    let n = min 4 (room - length bits) in
    omega (arith, length-append bits (bits_of 0 n), length-bits_of 0 n)

length-pad_bytes : (n i : ℕ) → length (pad_bytes n i) ≡ n
unfolding pad_bytes
length-pad_bytes zero i = refl
length-pad_bytes (suc n) i = omega (arith, length-pad_bytes n (i + 1))

length-padded :
    (bytes : List ℕ) (room : ℕ) → length bytes ≤ room → length (padded bytes room) ≡ room
unfolding padded
length-padded bytes room h =
    let n = room - length bytes in
    omega (arith, length-append bytes (pad_bytes n 0), length-pad_bytes n 0)

length-encode_data :
    (utf8 : List ℕ) (v : Version) → Fits (length utf8) v → length (encode_data utf8 v) ≡ capacity v
unfolding encode_data to_bytes
length-encode_data utf8 v f =
    let p = payload utf8 v in
    let t = terminated p (capacity v * 8) in
    let bits = pad_to_byte t in
    length-padded (to_bytes bits) (capacity v) (
      ground (
        arith,
        length-bytes_of ((length bits + 7) / 8) bits,
        length-pad_to_byte t,
        length-terminated p (capacity v * 8),
        length-payload utf8 v,
      ))

-- A text of bytes that is given a version fills its data codewords exactly, and a reader of byte mode
-- reads it back from them.
pub pick_version-reads :
    (utf8 : List ℕ) (v : Version)
    → All IsByte utf8
    → pick_version (length utf8) ≡ some v
    → (length (encode_data utf8 v) ≡ capacity v) × (decode_data (encode_data utf8 v) v ≡ some utf8)
unfolding pick_version
pick_version-reads utf8 v h e =
    let (c, f) = pick-All IsCounted versions (length utf8) v versions-IsCounted e in
    (length-encode_data utf8 v f, decode_data-encode_data utf8 v h (omega arith))

-- A text is refused exactly if it is longer than 213 bytes.
pub pick_version-bound : (n : ℕ) → is_some (pick_version n) ≡ leb n 213
unfolding pick_version pick
pick_version-bound n = ground arith

abbrev Ascending : List Version → Type 0
Ascending [] = Unit
Ascending (w ∷ vs) = All (λ x. w.number ≤ x.number) vs × Ascending vs

-- Of a smaller number, or too small.
abbrev IsBeaten : ℕ → Version → Version → Type 0
IsBeaten n v w = (v.number ≤ w.number) ⊎ (capacity w < n + header_bytes w)

later-All :
    (n : ℕ) (w : Version) (vs : List Version)
    → All (λ x. w.number ≤ x.number) vs
    → All (IsBeaten n w) vs
later-All n w [] a = tt
later-All n w (x ∷ vs) a = (inl a.0, later-All n w vs a.1)

pick-IsBeaten :
    (vs : List Version) (n : ℕ) (v : Version)
    → Ascending vs
    → pick vs n ≡ some v
    → All (IsBeaten n v) vs
unfolding pick
pick-IsBeaten [] n v a e = tt
pick-IsBeaten (w ∷ vs) n v a e = elim (Bool-cases (leb (n + header_bytes w) (capacity w))) [
  | inl h ↦
      let same : w ≡ v = cc in
      subst (λ x. All (IsBeaten n x) (w ∷ vs)) same (inl (omega arith), later-All n w vs a.0)
  | inr h ↦ (inr (ground arith), pick-IsBeaten vs n v a.1 (rw (h, pick) at e))
]

-- The header and the bytes of a text take no more than the bits of the data codewords.
abbrev pub Holds : Version → List ℕ → Type 0
Holds v utf8 = length (payload utf8 v) ≤ 8 * capacity v

Fits-Holds : (utf8 : List ℕ) (v : Version) → Fits (length utf8) v → Holds v utf8
Fits-Holds utf8 v f = ground (arith, length-payload utf8 v)

IsBeaten-capacity :
    (utf8 : List ℕ) (v w : Version)
    → IsBeaten (length utf8) v w
    → (v.number ≤ w.number) ⊎ (8 * capacity w < length (payload utf8 w))
IsBeaten-capacity utf8 v w (inl h) = inl h
IsBeaten-capacity utf8 v w (inr h) = inr (ground (arith, length-payload utf8 w))

IsBeaten-All :
    (utf8 : List ℕ) (v : Version) (vs : List Version)
    → All (IsBeaten (length utf8) v) vs
    → All (λ w. (v.number ≤ w.number) ⊎ (8 * capacity w < length (payload utf8 w))) vs
IsBeaten-All utf8 v [] a = tt
IsBeaten-All utf8 v (w ∷ vs) a = (IsBeaten-capacity utf8 v w a.0, IsBeaten-All utf8 v vs a.1)

-- The data codewords of the version that is picked have room for the whole bit string, its mode, its
-- count and the bytes of the text, and those of every version with a smaller number have not.
pub pick_version-least :
    (utf8 : List ℕ) (v : Version)
    → pick_version (length utf8) ≡ some v
    → Holds v utf8
      × All (λ w. (v.number ≤ w.number) ⊎ (8 * capacity w < length (payload utf8 w))) versions
unfolding pick_version
pick_version-least utf8 v e =
    let n = length utf8 in
    (
      Fits-Holds utf8 v (pick-All IsCounted versions n v versions-IsCounted e).1,
      IsBeaten-All utf8 v versions (pick-IsBeaten versions n v (ground arith) e),
    )
