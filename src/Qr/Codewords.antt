-- ===== src/Qr/Codewords.antt =====
-- src/lib/qr.ts: from the codewords of a symbol back to the text.
use asad.Base.{
  ℕ, zero, suc, ◌+◌, ◌*◌, ◌≤◌, max, ◌≡◌, refl, ap, ap₂, sym, ◌∙◌, subst, List, [], ◌∷◌, ◌++◌, map,
  length, take, drop, length-drop, arith, All, All-append, append_assoc, append-nil,
  take-append-drop, some,
}
use asad.Qr.Encode.{Version, capacity, encode_data, pick_version}
use asad.Qr.Bits.{IsByte}
use asad.Qr.Fits.{pick_version-reads}
use asad.Qr.RoundTrip.{decode_data}
use asad.Qr.Blocks.{Block, cut, blocks_of, contents_of, ecc_of, columns, build_codewords}
use asad.Qr.Deal.{deal, deal-columns, lengths_of, parts}

abbrev repeat : ℕ → ℕ → List ℕ
repeat zero n = []
repeat (suc k) n = n ∷ repeat k n

abbrev pub concat : List (List ℕ) → List ℕ
concat [] = []
concat (b ∷ bs) = b ++ concat bs

-- The lengths of the blocks of a version.
abbrev pub block_lengths : Version → List ℕ
block_lengths v = repeat v.g1 v.g1_data ++ repeat v.g2 v.g2_data

-- What a reader of the symbol makes of its codewords: the blocks, one after the other.
unfoldable pub deinterleave : List ℕ → Version → List ℕ
unfolding deal
deinterleave codewords v = concat (deal 0 (max v.g1_data v.g2_data) (block_lengths v) codewords)

drop-nil : (n : ℕ) → drop {A = ℕ} n [] ≡ []
drop-nil zero = refl
drop-nil (suc n) = refl

drop-drop : (m n : ℕ) (xs : List ℕ) → drop m (drop n xs) ≡ drop (n + m) xs
drop-drop m zero xs = let e : 0 + m ≡ m = omega arith in ap (λ k. drop k xs) (sym e)
drop-drop m (suc n) [] = drop-nil m ∙ sym (drop-nil (suc n + m))
drop-drop m (suc n) (x ∷ xs) =
    let e : suc n + m ≡ suc (n + m) = omega arith in
    drop-drop m n xs ∙ sym (ap (λ k. drop k (x ∷ xs)) e)

length-take : (n : ℕ) (xs : List ℕ) → n ≤ length xs → length (take n xs) ≡ n
length-take zero xs h = refl
length-take (suc n) [] h = absurd (omega arith)
length-take (suc n) (x ∷ xs) h = omega (arith, length-take n xs (omega arith))

abbrev contents : List Block → List (List ℕ)
contents bs = map contents_of bs

cut-lengths :
    (k n ecc : ℕ) (codewords : List ℕ)
    → k * n ≤ length codewords
    → lengths_of (contents (cut k n codewords ecc)) ≡ repeat k n
unfolding cut
cut-lengths zero n ecc codewords h = refl
cut-lengths (suc k) n ecc codewords h =
    ap₂ (λ x xs. x ∷ xs) (length-take n codewords (omega arith))
      (cut-lengths k n ecc (drop n codewords) (omega (arith, length-drop n codewords)))

cut-concat :
    (k n ecc : ℕ) (codewords : List ℕ)
    → concat (contents (cut k n codewords ecc)) ++ drop (k * n) codewords ≡ codewords
unfolding cut
cut-concat zero n ecc codewords = let e : 0 * n ≡ 0 = omega arith in ap (λ k. drop k codewords) e
cut-concat (suc k) n ecc codewords =
    let rest = contents (cut k n (drop n codewords) ecc) in
    let e : n + k * n ≡ suc k * n = omega arith in
    let d : drop (suc k * n) codewords ≡ drop (k * n) (drop n codewords) =
      sym (drop-drop (k * n) n codewords ∙ ap (λ m. drop m codewords) e) in
    append_assoc (take n codewords) (concat rest) (drop (suc k * n) codewords)
    ∙ (ap (λ xs. take n codewords ++ (concat rest ++ xs)) d
        ∙ (ap (λ xs. take n codewords ++ xs) (cut-concat k n ecc (drop n codewords))
            ∙ take-append-drop n codewords))

concat-append : (xs ys : List (List ℕ)) → concat (xs ++ ys) ≡ concat xs ++ concat ys
concat-append [] ys = refl
concat-append (x ∷ xs) ys =
    ap (λ z. x ++ z) (concat-append xs ys) ∙ sym (append_assoc x (concat xs) (concat ys))

contents-append : (xs ys : List Block) → contents (xs ++ ys) ≡ contents xs ++ contents ys
contents-append [] ys = refl
contents-append (x ∷ xs) ys = ap (λ z. x.contents ∷ z) (contents-append xs ys)

lengths_of-append : (xs ys : List (List ℕ)) → lengths_of (xs ++ ys) ≡ lengths_of xs ++ lengths_of ys
lengths_of-append [] ys = refl
lengths_of-append (x ∷ xs) ys = ap (λ z. length x ∷ z) (lengths_of-append xs ys)

nothing_left : (xs : List ℕ) (n : ℕ) → length xs ≤ n → drop n xs ≡ []
nothing_left [] zero h = refl
nothing_left [] (suc n) h = refl
nothing_left (x ∷ xs) zero h = absurd (omega arith)
nothing_left (x ∷ xs) (suc n) h = nothing_left xs n (omega arith)

-- The blocks of a version are all of the data, in order, and have the lengths of the table.
blocks_of-whole :
    (codewords : List ℕ) (v : Version)
    → length codewords ≡ capacity v
    → (concat (contents (blocks_of codewords v)) ≡ codewords)
      × (lengths_of (contents (blocks_of codewords v)) ≡ block_lengths v)
unfolding blocks_of
blocks_of-whole codewords v h =
    let first = cut v.g1 v.g1_data codewords v.ecc in
    let rest = drop (v.g1 * v.g1_data) codewords in
    let second = cut v.g2 v.g2_data rest v.ecc in
    let n : length rest ≡ v.g2 * v.g2_data =
      omega (arith, length-drop (v.g1 * v.g1_data) codewords) in
    let last : concat (contents second) ≡ rest =
      sym (append-nil (concat (contents second)))
      ∙ (ap (λ xs. concat (contents second) ++ xs)
            (sym (nothing_left rest (v.g2 * v.g2_data) (omega arith)))
          ∙ cut-concat v.g2 v.g2_data v.ecc rest) in
    (
      ap concat (contents-append first second)
          ∙ (concat-append (contents first) (contents second)
              ∙ (ap (λ xs. concat (contents first) ++ xs) last
                  ∙ cut-concat v.g1 v.g1_data v.ecc codewords)),
      ap lengths_of (contents-append first second)
          ∙ (lengths_of-append (contents first) (contents second)
              ∙ ap₂ (λ xs ys. xs ++ ys) (cut-lengths v.g1 v.g1_data v.ecc codewords (omega arith))
                  (cut-lengths v.g2 v.g2_data v.ecc rest (omega arith))),
    )

take_whole : (n : ℕ) (xs : List ℕ) → length xs ≤ n → take n xs ≡ xs
take_whole zero [] h = refl
take_whole zero (x ∷ xs) h = absurd (omega arith)
take_whole (suc n) [] h = refl
take_whole (suc n) (x ∷ xs) h = ap (λ z. x ∷ z) (take_whole n xs (omega arith))

parts_whole : (n : ℕ) (bs : List (List ℕ)) → All (λ l. l ≤ n) (lengths_of bs) → parts 0 n bs ≡ bs
parts_whole n [] a = refl
parts_whole n (b ∷ bs) a = ap₂ (λ x xs. x ∷ xs) (take_whole n b a.0) (parts_whole n bs a.1)

repeat-All : (m k n : ℕ) → n ≤ m → All (λ l. l ≤ m) (repeat k n)
repeat-All m zero n h = tt
repeat-All m (suc k) n h = (h, repeat-All m k n h)

-- Data codewords that fill a version are found again in the interleaved codewords.
pub deinterleave-build_codewords :
    (codewords : List ℕ) (v : Version)
    → length codewords ≡ capacity v
    → deinterleave (build_codewords codewords v) v ≡ codewords
unfolding deinterleave build_codewords
deinterleave-build_codewords codewords v h =
    let n = max v.g1_data v.g2_data in
    let bs = contents (blocks_of codewords v) in
    let ecc = columns 0 v.ecc (map ecc_of (blocks_of codewords v)) in
    let (whole, lengths) = blocks_of-whole codewords v h in
    let short : All (λ l. l ≤ n) (block_lengths v) =
      All-append (λ l. l ≤ n) (repeat v.g1 v.g1_data) (repeat v.g2 v.g2_data)
        (repeat-All n v.g1 v.g1_data (omega arith)) (repeat-All n v.g2 v.g2_data (omega arith)) in
    let dealt : deal 0 n (block_lengths v) (columns 0 n bs ++ ecc) ≡ bs =
      subst (λ ls. deal 0 n ls (columns 0 n bs ++ ecc) ≡ bs) lengths
        (deal-columns 0 n bs ecc
          ∙ parts_whole n bs (subst (λ ls. All (λ l. l ≤ n) ls) (sym lengths) short)) in
    ap concat dealt ∙ whole

-- A text of bytes that is given a version is read back from the codewords of its symbol.
pub build_codewords-reads :
    (utf8 : List ℕ) (v : Version)
    → All IsByte utf8
    → pick_version (length utf8) ≡ some v
    → decode_data (deinterleave (build_codewords (encode_data utf8 v) v) v) v ≡ some utf8
build_codewords-reads utf8 v h e =
    let (n, r) = pick_version-reads utf8 v h e in
    ap (λ xs. decode_data xs v) (deinterleave-build_codewords (encode_data utf8 v) v n) ∙ r
