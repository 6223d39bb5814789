-- ===== src/Qr/Tests.antt =====
-- Tests of the QR encoder, and examples of its theorems.
use asad.Base.{
  ℕ, ◌*◌, ◌<◌, ◌≤◌, ◌⊎◌, ◌++◌, ◌≡◌, refl, List, [], ◌∷◌, All, arith, length, some, is_some, false,
}
use asad.Qr.Encode.{Version, versions, version, capacity, payload, encode_data, pick_version}
use asad.Qr.Field.{reed_solomon}
use asad.Qr.Fits.{Holds, pick_version-least, pick_version-bound}
use asad.Qr.RoundTrip.{decode_data}
use asad.Qr.Blocks.{build_codewords}
use asad.Qr.Codewords.{deinterleave, build_codewords-reads}

abbrev hello : List ℕ
hello = 104 ∷ 101 ∷ 108 ∷ 108 ∷ 111 ∷ []

abbrev smallest : Version
smallest = version 1 26 10 1 16 0 0

-- The data codewords of a text of five bytes.
encode_data_test :
    encode_data hello smallest
    ≡ 64 ∷ 86 ∷ 134 ∷ 86 ∷ 198 ∷ 198 ∷ 240 ∷ 236 ∷ 17 ∷ 236 ∷ 17 ∷ 236 ∷ 17 ∷ 236 ∷ 17 ∷ 236 ∷ []
unfolding encode_data
encode_data_test = refl

-- The example that the standard's tutorials work out, version 1 with level M.
reed_solomon_test :
    reed_solomon
      (32 ∷ 91 ∷ 11 ∷ 120 ∷ 209 ∷ 114 ∷ 220 ∷ 77 ∷ 67 ∷ 64 ∷ 236 ∷ 17 ∷ 236 ∷ 17 ∷ 236 ∷ 17 ∷ [])
      10
    ≡ 196 ∷ 35 ∷ 39 ∷ 119 ∷ 235 ∷ 215 ∷ 231 ∷ 226 ∷ 93 ∷ 23 ∷ []
unfolding reed_solomon
reed_solomon_test = refl

smallest_picked : pick_version (length hello) ≡ some smallest
unfolding pick_version
smallest_picked = refl

-- Fifteen bytes take the second version.
abbrev long : List ℕ
long = hello ++ (hello ++ hello)

abbrev middle : Version
middle = version 2 44 16 1 28 0 0

middle_picked : pick_version (length long) ≡ some middle
unfolding pick_version
middle_picked = refl

build_codewords-reads_example :
    decode_data
      (deinterleave (build_codewords (encode_data hello smallest) smallest) smallest)
      smallest
    ≡ some hello
build_codewords-reads_example = build_codewords-reads hello smallest (ground arith) smallest_picked

pick_version-least_example :
    Holds middle long
    × All (λ w. (middle.number ≤ w.number) ⊎ (8 * capacity w < length (payload long w))) versions
pick_version-least_example = pick_version-least long middle middle_picked

pick_version-bound_example : is_some (pick_version 214) ≡ false
pick_version-bound_example = pick_version-bound 214
