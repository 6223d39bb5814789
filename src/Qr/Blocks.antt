-- ===== src/Qr/Blocks.antt =====
-- src/lib/qr.ts: `buildCodewords`, which cuts the data into blocks, adds the error correction of
-- each, and interleaves them.
use asad.Base.{ℕ, zero, suc, ◌+◌, ◌*◌, max, List, [], ◌∷◌, ◌++◌, map, take, drop}
use asad.Qr.Encode.{Version}
use asad.Qr.Field.{reed_solomon}

pub record Block : Type 0 where
  pub contents : List ℕ
  pub ecc : List ℕ

-- `data[i]`, where it is there
unfoldable pub nth : ℕ → List ℕ → List ℕ
nth i [] = []
nth zero (x ∷ xs) = x ∷ []
nth (suc i) (x ∷ xs) = nth i xs

-- So many blocks of that many bytes from the front of the data.
unfoldable pub cut : ℕ → ℕ → List ℕ → ℕ → List Block
cut zero n codewords ecc = []
cut (suc blocks) n codewords ecc =
    record { contents = take n codewords; ecc = reed_solomon (take n codewords) ecc }
    ∷ cut blocks n (drop n codewords) ecc

unfoldable pub blocks_of : List ℕ → Version → List Block
unfolding cut
blocks_of codewords v =
    cut v.g1 v.g1_data codewords v.ecc
    ++ cut v.g2 v.g2_data (drop (v.g1 * v.g1_data) codewords) v.ecc

abbrev pub contents_of : Block → List ℕ
contents_of b = b.contents

abbrev pub ecc_of : Block → List ℕ
ecc_of b = b.ecc

-- The bytes at one place of every block, and those at so many places from one on.
unfoldable pub column : ℕ → List (List ℕ) → List ℕ
unfolding nth
column i [] = []
column i (b ∷ bs) = nth i b ++ column i bs

unfoldable pub columns : ℕ → ℕ → List (List ℕ) → List ℕ
unfolding column
columns i zero bs = []
columns i (suc n) bs = column i bs ++ columns (i + 1) n bs

unfoldable pub build_codewords : List ℕ → Version → List ℕ
unfolding blocks_of columns
build_codewords codewords v =
    let blocks = blocks_of codewords v in
    columns 0 (max v.g1_data v.g2_data) (map contents_of blocks)
    ++ columns 0 v.ecc (map ecc_of blocks)
