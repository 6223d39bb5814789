-- ===== src/Qr/Encode.antt =====
-- src/lib/qr.ts: the version tables, the bit buffer and `encodeData`. A text is the bytes that
-- `TextEncoder` makes of it.
use asad.Base.{
  ℕ, zero, suc, ◌+◌, ◌-◌, ◌*◌, ◌/◌, ◌%◌, ◌^◌, min, Option, none, some, List, [], ◌∷◌, ◌++◌, leb,
  ◌==◌, if◌then◌else◌, length, drop,
}

-- A row of `VERSIONS`, with its number.
pub record Version : Type 0 where
  pub number : ℕ
  pub total : ℕ
  pub ecc : ℕ
  pub g1 : ℕ
  pub g1_data : ℕ
  pub g2 : ℕ
  pub g2_data : ℕ

abbrev pub version : ℕ → ℕ → ℕ → ℕ → ℕ → ℕ → ℕ → Version
version n t e a b c d = record {
  number = n;
  total = t;
  ecc = e;
  g1 = a;
  g1_data = b;
  g2 = c;
  g2_data = d;
}

abbrev pub versions : List Version
versions =
    version 1 26 10 1 16 0 0
    ∷ version 2 44 16 1 28 0 0
    ∷ version 3 70 26 1 44 0 0
    ∷ version 4 100 18 2 32 0 0
    ∷ version 5 134 24 2 43 0 0
    ∷ version 6 172 16 4 27 0 0
    ∷ version 7 196 18 4 31 0 0
    ∷ version 8 242 22 2 38 2 39
    ∷ version 9 292 22 3 36 2 37
    ∷ version 10 346 26 4 43 1 44
    ∷ []

abbrev pub size : Version → ℕ
size v = v.number * 4 + 17

abbrev pub capacity : Version → ℕ
capacity v = v.g1 * v.g1_data + v.g2 * v.g2_data

-- `version <= 9 ? 8 : 16`
abbrev pub count_bits : Version → ℕ
count_bits v = if leb v.number 9 then 8 else 16

-- `put`: the lowest bits of a number, the highest of them first
unfoldable pub bits_of : ℕ → ℕ → List ℕ
bits_of value zero = []
bits_of value (suc i) = value / 2 ^ i % 2 ∷ bits_of value i

unfoldable pub bits_of_bytes : List ℕ → List ℕ
unfolding bits_of
bits_of_bytes [] = []
bits_of_bytes (b ∷ bytes) = bits_of b 8 ++ bits_of_bytes bytes

unfoldable pub zeros : ℕ → List ℕ
zeros zero = []
zeros (suc n) = 0 ∷ zeros n

-- `padToByte`: zeros until the length is a multiple of eight
unfoldable pub pad_to_byte : List ℕ → List ℕ
unfolding zeros
pad_to_byte bits = bits ++ zeros ((8 - length bits % 8) % 8)

-- `byte = (byte << 1) | (bits[i + j] ?? 0)`, so many times
unfoldable pub number_of : ℕ → ℕ → List ℕ → ℕ
number_of zero byte bits = byte
number_of (suc n) byte [] = number_of n (byte * 2) []
number_of (suc n) byte (b ∷ bits) = number_of n (byte * 2 + b) bits

unfoldable pub bytes_of : ℕ → List ℕ → List ℕ
unfolding number_of
bytes_of zero bits = []
bytes_of (suc n) bits = number_of 8 0 bits ∷ bytes_of n (drop 8 bits)

-- `toBytes`
unfoldable pub to_bytes : List ℕ → List ℕ
unfolding bytes_of
to_bytes bits = bytes_of ((length bits + 7) / 8) bits

-- The padding bytes, from the index that has been reached.
unfoldable pub pad_bytes : ℕ → ℕ → List ℕ
pad_bytes zero i = []
pad_bytes (suc n) i = (if i % 2 == 0 then 0xec else 0x11) ∷ pad_bytes n (i + 1)

-- The header and the bytes.
unfoldable pub payload : List ℕ → Version → List ℕ
unfolding bits_of bits_of_bytes
payload utf8 v = bits_of 4 4 ++ (bits_of (length utf8) (count_bits v) ++ bits_of_bytes utf8)

-- The terminator, of up to four zeros.
unfoldable pub terminated : List ℕ → ℕ → List ℕ
unfolding bits_of
terminated bits room = bits ++ bits_of 0 (min 4 (room - length bits))

unfoldable pub padded : List ℕ → ℕ → List ℕ
unfolding pad_bytes
padded bytes room = bytes ++ pad_bytes (room - length bytes) 0

unfoldable pub encode_data : List ℕ → Version → List ℕ
unfolding payload terminated pad_to_byte to_bytes padded
encode_data utf8 v =
    padded (to_bytes (pad_to_byte (terminated (payload utf8 v) (capacity v * 8)))) (capacity v)

abbrev pub header_bytes : Version → ℕ
header_bytes v = if leb v.number 9 then 2 else 3

-- The loop of `encodeQr` over the versions.
unfoldable pub pick : List Version → ℕ → Option Version
pick [] n = none
pick (v ∷ vs) n =
    let rest = pick vs n in if leb (n + header_bytes v) (capacity v) then some v else rest

unfoldable pub pick_version : ℕ → Option Version
unfolding pick
pick_version n = pick versions n
