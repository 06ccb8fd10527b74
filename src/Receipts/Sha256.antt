-- ===== src/Receipts/Sha256.antt =====
-- packages/eta-core/src/receipts/receipt-sha256.ts: SHA-256 of the UTF-8 bytes of a text.
--
-- A signed 32-bit integer of JavaScript is kept as the unsigned one that is equal to it modulo
-- 2^32: every sum of the code ends in `>>> 0`, and the bit operations agree on the two.
pub mod Hex
mod Tests
use Prim.Native.Nat.{bit_and, bit_or, bit_xor}
use einvoice.Prelude.{
  ℕ, zero, suc, ◌+◌, ◌-◌, ◌*◌, ◌/◌, ◌%◌, ◌^◌, ◌&&◌, List, [], ◌∷◌, ◌++◌, map, Text, length, take,
  drop, replicate, join, ltb, leb, if◌then◌else◌,
}

abbrev pub word : ℕ
word = 2 ^ 32

abbrev k_table : List ℕ
k_table =
    0x428a2f98 ∷ 0x71374491 ∷ 0xb5c0fbcf ∷ 0xe9b5dba5 ∷ 0x3956c25b ∷ 0x59f111f1 ∷ 0x923f82a4
    ∷ 0xab1c5ed5 ∷ 0xd807aa98 ∷ 0x12835b01 ∷ 0x243185be ∷ 0x550c7dc3 ∷ 0x72be5d74 ∷ 0x80deb1fe
    ∷ 0x9bdc06a7 ∷ 0xc19bf174 ∷ 0xe49b69c1 ∷ 0xefbe4786 ∷ 0x0fc19dc6 ∷ 0x240ca1cc ∷ 0x2de92c6f
    ∷ 0x4a7484aa ∷ 0x5cb0a9dc ∷ 0x76f988da ∷ 0x983e5152 ∷ 0xa831c66d ∷ 0xb00327c8 ∷ 0xbf597fc7
    ∷ 0xc6e00bf3 ∷ 0xd5a79147 ∷ 0x06ca6351 ∷ 0x14292967 ∷ 0x27b70a85 ∷ 0x2e1b2138 ∷ 0x4d2c6dfc
    ∷ 0x53380d13 ∷ 0x650a7354 ∷ 0x766a0abb ∷ 0x81c2c92e ∷ 0x92722c85 ∷ 0xa2bfe8a1 ∷ 0xa81a664b
    ∷ 0xc24b8b70 ∷ 0xc76c51a3 ∷ 0xd192e819 ∷ 0xd6990624 ∷ 0xf40e3585 ∷ 0x106aa070 ∷ 0x19a4c116
    ∷ 0x1e376c08 ∷ 0x2748774c ∷ 0x34b0bcb5 ∷ 0x391c0cb3 ∷ 0x4ed8aa4a ∷ 0x5b9cca4f ∷ 0x682e6ff3
    ∷ 0x748f82ee ∷ 0x78a5636f ∷ 0x84c87814 ∷ 0x8cc70208 ∷ 0x90befffa ∷ 0xa4506ceb ∷ 0xbef9a3f7
    ∷ 0xc67178f2 ∷ []

-- `new TextEncoder().encode(text)`: a lone surrogate becomes U+FFFD.
abbrev utf8_char : ℕ → List ℕ
utf8_char c =
    if ltb c 0x80
    then c ∷ []
    else if ltb c 0x800
    then (192 + c / 64) ∷ (128 + c % 64) ∷ []
    else if leb 0xd800 c && leb c 0xdfff
    then 239 ∷ 191 ∷ 189 ∷ []
    else if ltb c 0x10000
    then (224 + c / 4096) ∷ (128 + c / 64 % 64) ∷ (128 + c % 64) ∷ []
    else (240 + c / 262144) ∷ (128 + c / 4096 % 64) ∷ (128 + c / 64 % 64) ∷ (128 + c % 64) ∷ []

unfoldable pub utf8 : Text → List ℕ
utf8 [] = []
utf8 (c ∷ s) = utf8_char c ++ utf8 s

unfoldable pub rotr : ℕ → ℕ → ℕ
rotr x n = bit_or (x / 2 ^ n) (x * 2 ^ (32 - n) % word)

-- The bytes with 0x80, zeros, and the low 32 bits of the bit length, to a multiple of 64 bytes.
abbrev pub block_count : ℕ → ℕ
block_count len = (len + 1 + 8 + 63) / 64

unfoldable pub padded : List ℕ → List ℕ
padded bytes =
    let len = length bytes in
    let bits = len * 8 % word in
    bytes
    ++ (0x80
        ∷ (replicate (block_count len * 64 - 4 - (len + 1)) 0
            ++ ((bits / 16777216) ∷ (bits / 65536 % 256) ∷ (bits / 256 % 256) ∷ (bits % 256) ∷ [])))

-- `view.getUint32` at consecutive places.
unfoldable pub words : List ℕ → List ℕ
words (a ∷ b ∷ c ∷ d ∷ r) = (a * 16777216 + b * 65536 + c * 256 + d) ∷ words r
words _ = []

abbrev nth : List ℕ → ℕ → ℕ
nth [] i = 0
nth (x ∷ xs) zero = x
nth (x ∷ xs) (suc i) = nth xs i

-- The message schedule: the last word first, so that w[t - k] stands at k - 1.
unfoldable pub next_word : List ℕ → ℕ
next_word ws =
    let s0 = bit_xor (bit_xor (rotr (nth ws 14) 7) (rotr (nth ws 14) 18)) (nth ws 14 / 2 ^ 3) in
    let s1 = bit_xor (bit_xor (rotr (nth ws 1) 17) (rotr (nth ws 1) 19)) (nth ws 1 / 2 ^ 10) in
    (nth ws 15 + s0 + nth ws 6 + s1) % word

unfoldable pub extend : ℕ → List ℕ → List ℕ
extend zero ws = ws
extend (suc n) ws = extend n (next_word ws ∷ ws)

pub record State : Type 0 where
  pub a : ℕ
  pub b : ℕ
  pub c : ℕ
  pub d : ℕ
  pub e : ℕ
  pub f : ℕ
  pub g : ℕ
  pub h : ℕ

abbrev pub initial : State
initial = record {
  a = 0x6a09e667;
  b = 0xbb67ae85;
  c = 0x3c6ef372;
  d = 0xa54ff53a;
  e = 0x510e527f;
  f = 0x9b05688c;
  g = 0x1f83d9ab;
  h = 0x5be0cd19;
}

unfoldable pub round : State → ℕ → ℕ → State
unfolding rotr
round s k w =
    let s1 = bit_xor (bit_xor (rotr s.e 6) (rotr s.e 11)) (rotr s.e 25) in
    let ch = bit_xor (bit_and s.e s.f) (bit_and (word - 1 - s.e) s.g) in
    let temp1 = (s.h + s1 + ch + k + w) % word in
    let s0 = bit_xor (bit_xor (rotr s.a 2) (rotr s.a 13)) (rotr s.a 22) in
    let maj = bit_xor (bit_xor (bit_and s.a s.b) (bit_and s.a s.c)) (bit_and s.b s.c) in
    let temp2 = (s0 + maj) % word in
    record {
      a = (temp1 + temp2) % word;
      b = s.a;
      c = s.b;
      d = s.c;
      e = (s.d + temp1) % word;
      f = s.e;
      g = s.f;
      h = s.g;
    }

unfoldable pub rounds : State → List ℕ → List ℕ → State
rounds s [] ws = s
rounds s (k ∷ ks) [] = s
rounds s (k ∷ ks) (w ∷ ws) = rounds (round s k w) ks ws

abbrev rev_onto : List ℕ → List ℕ → List ℕ
rev_onto [] ys = ys
rev_onto (x ∷ xs) ys = rev_onto xs (x ∷ ys)

abbrev add_states : State → State → State
add_states s t = record {
  a = (s.a + t.a) % word;
  b = (s.b + t.b) % word;
  c = (s.c + t.c) % word;
  d = (s.d + t.d) % word;
  e = (s.e + t.e) % word;
  f = (s.f + t.f) % word;
  g = (s.g + t.g) % word;
  h = (s.h + t.h) % word;
}

-- One block of 16 words.
unfoldable pub compress : State → List ℕ → State
unfolding rounds round rotr extend next_word
compress s block = add_states s (rounds s k_table (rev_onto (extend 48 (rev_onto block [])) []))

unfoldable pub blocks : ℕ → State → List ℕ → State
blocks zero s ws = s
blocks (suc n) s ws = blocks n (compress s (take 16 ws)) (drop 16 ws)

abbrev pub hex_digit : ℕ → ℕ
hex_digit d = if ltb d 10 then 48 + d else 87 + d

-- `n.toString(16).padStart(8, '0')` of a 32-bit number.
unfoldable pub hex8 : ℕ → Text
hex8 x =
    hex_digit (x / 2 ^ 28 % 16)
    ∷ hex_digit (x / 2 ^ 24 % 16)
    ∷ hex_digit (x / 2 ^ 20 % 16)
    ∷ hex_digit (x / 2 ^ 16 % 16)
    ∷ hex_digit (x / 2 ^ 12 % 16)
    ∷ hex_digit (x / 2 ^ 8 % 16)
    ∷ hex_digit (x / 2 ^ 4 % 16)
    ∷ hex_digit (x % 16)
    ∷ []

unfoldable pub state_hex : State → Text
state_hex s =
    hex8 s.a
    ++ (hex8 s.b ++ (hex8 s.c ++ (hex8 s.d ++ (hex8 s.e ++ (hex8 s.f ++ (hex8 s.g ++ hex8 s.h))))))

unfoldable pub sha256_hex : Text → Text
unfolding utf8 padded words blocks compress state_hex hex8
sha256_hex message =
    let bytes = utf8 message in
    state_hex (blocks (block_count (length bytes)) initial (words (padded bytes)))
