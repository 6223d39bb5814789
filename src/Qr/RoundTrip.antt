-- ===== src/Qr/RoundTrip.antt =====
-- src/lib/qr.ts: what `encodeData` writes, a reader of byte mode reads back.
use asad.Base.{
  ℕ, ◌+◌, ◌-◌, ◌*◌, ◌/◌, ◌%◌, ◌^◌, ◌<◌, min, ◌≡◌, ap, sym, ◌∙◌, subst, true, Option, none, some,
  List, ◌++◌, append_assoc, arith, All, All-append, length, drop, length-append, leb, ◌==◌,
  if◌then◌else◌,
}
use native.Mathlib.Nat.{mod-eq_of_lt}
use asad.Qr.Encode.{
  Version, capacity, count_bits, bits_of, bits_of_bytes, number_of, bytes_of, zeros, pad_to_byte,
  to_bytes, pad_bytes, payload, terminated, padded, encode_data,
}
use asad.Qr.Bits.{
  IsBit, IsByte, drop-bits_of, bits_of-All, number_of-bits_of, bits_of_bytes-bytes_of,
  bytes_of-bits_of_bytes, bits_of_bytes-append, length-bits_of_bytes, bits_of_bytes-All, zeros-All,
}

-- What a reader of the symbol does with the data codewords: the mode, the count, the bytes.
abbrev pub read_bits : List ℕ → ℕ → Option (List ℕ)
read_bits bits count_length =
    let after_mode = drop 4 bits in
    let after_count = drop count_length after_mode in
    let count = number_of count_length 0 after_mode in
    if number_of 4 0 bits == 4
    then if leb (8 * count) (length after_count) then some (bytes_of count after_count) else none
    else none

unfoldable pub decode_data : List ℕ → Version → Option (List ℕ)
unfolding bits_of_bytes number_of bytes_of
decode_data codewords v = read_bits (bits_of_bytes codewords) (count_bits v)

-- Reading a count and the bytes, that anything may follow.
read_bits-counted :
    (utf8 : List ℕ) (c : ℕ) (rest : List ℕ)
    → All IsByte utf8
    → length utf8 < 2 ^ c
    → read_bits (bits_of 4 4 ++ (bits_of (length utf8) c ++ (bits_of_bytes utf8 ++ rest))) c
      ≡ some utf8
unfolding bits_of number_of
read_bits-counted utf8 c rest h l =
    let tail = bits_of_bytes utf8 ++ rest in
    let n : number_of c 0 (bits_of (length utf8) c ++ tail) ≡ length utf8 =
      number_of-bits_of c 0 (length utf8) tail ∙ omega (arith, mod-eq_of_lt l) in
    let d : drop c (bits_of (length utf8) c ++ tail) ≡ tail = drop-bits_of (length utf8) c tail in
    let enough : leb (8 * length utf8) (length tail) ≡ true =
      ground (arith, length-append (bits_of_bytes utf8) rest, length-bits_of_bytes utf8) in
    rw (n, d, enough) (ap some (bytes_of-bits_of_bytes utf8 rest h))

read_bits-payload :
    (utf8 : List ℕ) (v : Version) (rest : List ℕ)
    → All IsByte utf8
    → length utf8 < 2 ^ count_bits v
    → read_bits (payload utf8 v ++ rest) (count_bits v) ≡ some utf8
unfolding payload
read_bits-payload utf8 v rest h l =
    let c = count_bits v in
    subst (λ bits. read_bits bits c ≡ some utf8)
      (ap (λ x. bits_of 4 4 ++ x)
          (sym (append_assoc (bits_of (length utf8) c) (bits_of_bytes utf8) rest))
        ∙ sym (append_assoc (bits_of 4 4) (bits_of (length utf8) c ++ bits_of_bytes utf8) rest))
      (read_bits-counted utf8 c rest h l)

-- The bits before the padding bytes are whole bytes that begin with the payload.
unfoldable before_padding : List ℕ → Version → List ℕ
unfolding pad_to_byte terminated
before_padding utf8 v = pad_to_byte (terminated (payload utf8 v) (capacity v * 8))

payload-All : (utf8 : List ℕ) (v : Version) → All IsBit (payload utf8 v)
unfolding payload
payload-All utf8 v =
    let c = count_bits v in
    All-append IsBit (bits_of 4 4) (bits_of (length utf8) c ++ bits_of_bytes utf8) (bits_of-All 4 4)
      (All-append IsBit (bits_of (length utf8) c) (bits_of_bytes utf8) (bits_of-All (length utf8) c)
        (bits_of_bytes-All utf8))

terminated-All : (bits : List ℕ) (room : ℕ) → All IsBit bits → All IsBit (terminated bits room)
unfolding terminated
terminated-All bits room h =
    let n = min 4 (room - length bits) in All-append IsBit bits (bits_of 0 n) h (bits_of-All 0 n)

pad_to_byte-All : (bits : List ℕ) → All IsBit bits → All IsBit (pad_to_byte bits)
unfolding pad_to_byte
pad_to_byte-All bits h =
    let n = (8 - length bits % 8) % 8 in All-append IsBit bits (zeros n) h (zeros-All n).1

pub length-pad_to_byte :
    (bits : List ℕ) → length (pad_to_byte bits) ≡ length bits + (8 - length bits % 8) % 8
unfolding pad_to_byte
length-pad_to_byte bits =
    let n = (8 - length bits % 8) % 8 in
    omega (arith, length-append bits (zeros n), (zeros-All n).0)

-- Whole bytes hold the padded bits.
pad_to_byte-whole :
    (bits : List ℕ) → length (pad_to_byte bits) ≡ 8 * ((length (pad_to_byte bits) + 7) / 8)
pad_to_byte-whole bits = omega (arith, length-pad_to_byte bits)

before_padding-payload :
    (utf8 : List ℕ) (v : Version)
    → (rest : List ℕ) × (before_padding utf8 v ≡ payload utf8 v ++ rest)
unfolding before_padding pad_to_byte terminated
before_padding-payload utf8 v =
    let p = payload utf8 v in
    let t = bits_of 0 (min 4 (capacity v * 8 - length p)) in
    let z = zeros ((8 - length (p ++ t) % 8) % 8) in (t ++ z, append_assoc p t z)

-- What a text is encoded as, a reader reads back, if it is of bytes and its length fits the count.
pub decode_data-encode_data :
    (utf8 : List ℕ) (v : Version)
    → All IsByte utf8
    → length utf8 < 2 ^ count_bits v
    → decode_data (encode_data utf8 v) v ≡ some utf8
unfolding decode_data encode_data padded to_bytes before_padding
decode_data-encode_data utf8 v h l =
    let bits = before_padding utf8 v in
    let bytes = to_bytes bits in
    let pads = pad_bytes (capacity v - length bytes) 0 in
    let whole : bits_of_bytes bytes ≡ bits =
      bits_of_bytes-bytes_of ((length bits + 7) / 8) bits
        (pad_to_byte-whole (terminated (payload utf8 v) (capacity v * 8)))
        (pad_to_byte-All (terminated (payload utf8 v) (capacity v * 8))
          (terminated-All (payload utf8 v) (capacity v * 8) (payload-All utf8 v))) in
    let (rest, e) = before_padding-payload utf8 v in
    let all : bits_of_bytes (bytes ++ pads) ≡ payload utf8 v ++ (rest ++ bits_of_bytes pads) =
      bits_of_bytes-append bytes pads
      ∙ (ap (λ x. x ++ bits_of_bytes pads) (whole ∙ e)
          ∙ append_assoc (payload utf8 v) rest (bits_of_bytes pads)) in
    ap (λ x. read_bits x (count_bits v)) all
    ∙ read_bits-payload utf8 v (rest ++ bits_of_bytes pads) h l
