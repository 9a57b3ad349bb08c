-- ===== src/Prng/Sha256.antt =====
-- packages/game-core/src/prng.ts: the UTF-8 encoder and SHA-256. A 32-bit word is a number below
-- 2 ^ 32; `>>> 0` is `% 2 ^ 32`, and a signed intermediate result of the source stands for its word.
use Prim.Native.Nat.{bit_and, bit_or, bit_xor}
use the_arena_of.Prelude.{
  ℕ, zero, suc, ◌+◌, ◌-◌, ◌*◌, ◌/◌, ◌%◌, ◌^◌, ◌<◌, ◌≡◌, refl, Bool, ◌&&◌, List, [], ◌∷◌, ◌++◌,
  arith, ltb, leb, if◌then◌else◌, length, length-append, get_elem?, take, drop, All,
}
use the_arena_of.Prelude.Dict.{or_else}
use the_arena_of.Text.{Str, lit}

abbrev pub word_size : ℕ
word_size = 2 ^ 32

abbrev pub sha256_k : List ℕ
sha256_k =
    0x428a2f98 ∷ 0x71374491 ∷ 0xb5c0fbcf ∷ 0xe9b5dba5 ∷ 0x3956c25b ∷ 0x59f111f1 ∷ 0x923f82a4
    ∷ 0xab1c5ed5 ∷ 0xd807aa98 ∷ 0x12835b01 ∷ 0x243185be ∷ 0x550c7dc3 ∷ 0x72be5d74 ∷ 0x80deb1fe
    ∷ 0x9bdc06a7 ∷ 0xc19bf174 ∷ 0xe49b69c1 ∷ 0xefbe4786 ∷ 0x0fc19dc6 ∷ 0x240ca1cc ∷ 0x2de92c6f
    ∷ 0x4a7484aa ∷ 0x5cb0a9dc ∷ 0x76f988da ∷ 0x983e5152 ∷ 0xa831c66d ∷ 0xb00327c8 ∷ 0xbf597fc7
    ∷ 0xc6e00bf3 ∷ 0xd5a79147 ∷ 0x06ca6351 ∷ 0x14292967 ∷ 0x27b70a85 ∷ 0x2e1b2138 ∷ 0x4d2c6dfc
    ∷ 0x53380d13 ∷ 0x650a7354 ∷ 0x766a0abb ∷ 0x81c2c92e ∷ 0x92722c85 ∷ 0xa2bfe8a1 ∷ 0xa81a664b
    ∷ 0xc24b8b70 ∷ 0xc76c51a3 ∷ 0xd192e819 ∷ 0xd6990624 ∷ 0xf40e3585 ∷ 0x106aa070 ∷ 0x19a4c116
    ∷ 0x1e376c08 ∷ 0x2748774c ∷ 0x34b0bcb5 ∷ 0x391c0cb3 ∷ 0x4ed8aa4a ∷ 0x5b9cca4f ∷ 0x682e6ff3
    ∷ 0x748f82ee ∷ 0x78a5636f ∷ 0x84c87814 ∷ 0x8cc70208 ∷ 0x90befffa ∷ 0xa4506ceb ∷ 0xbef9a3f7
    ∷ 0xc67178f2 ∷ []

abbrev is_high_surrogate : ℕ → Bool
is_high_surrogate c = leb 0xd800 c && ltb c 0xdc00

abbrev is_low_surrogate : ℕ → Bool
is_low_surrogate c = leb 0xdc00 c && ltb c 0xe000

-- U+FFFD.
abbrev replacement : List ℕ
replacement = 0xef ∷ 0xbf ∷ 0xbd ∷ []

-- The bytes of a code unit that is no part of a pair.
encode_unit : ℕ → List ℕ
encode_unit c =
    if ltb c 0x80
    then c ∷ []
    else if ltb c 0x800
    then bit_or 0xc0 (c / 2 ^ 6) ∷ bit_or 0x80 (bit_and c 0x3f) ∷ []
    else if is_high_surrogate c
    then replacement
    else if is_low_surrogate c
    then replacement
    else bit_or 0xe0 (c / 2 ^ 12)
      ∷ bit_or 0x80 (bit_and (c / 2 ^ 6) 0x3f)
      ∷ bit_or 0x80 (bit_and c 0x3f)
      ∷ []

-- The bytes of a surrogate pair.
encode_pair : ℕ → ℕ → List ℕ
encode_pair high low =
    let c = 0x10000 + bit_or (bit_and high 0x3ff * 2 ^ 10) (bit_and low 0x3ff) in
    bit_or 0xf0 (c / 2 ^ 18)
    ∷ bit_or 0x80 (bit_and (c / 2 ^ 12) 0x3f)
    ∷ bit_or 0x80 (bit_and (c / 2 ^ 6) 0x3f)
    ∷ bit_or 0x80 (bit_and c 0x3f)
    ∷ []

unfoldable pub utf8_encode : Str → List ℕ
unfolding encode_unit encode_pair
utf8_encode [] = []
utf8_encode (c ∷ []) = encode_unit c
utf8_encode (c ∷ d ∷ s) =
    let paired = encode_pair c d ++ utf8_encode s in
    let single = encode_unit c ++ utf8_encode (d ∷ s) in
    if is_high_surrogate c && is_low_surrogate d then paired else single

rotr : ℕ → ℕ → ℕ
rotr x n = bit_or (x / 2 ^ n) (x * 2 ^ (32 - n) % word_size) % word_size

zeros : ℕ → List ℕ
zeros zero = []
zeros (suc n) = 0 ∷ zeros n

pad_len : ℕ → ℕ
pad_len len = (64 - (len + 9) % 64) % 64

-- What follows a message of `len` bytes: 0x80, zeros, and the length in bits as eight bytes, the
-- highest first.
padding : ℕ → List ℕ
padding len =
    let bit_len = len * 8 in
    0x80
    ∷ (zeros (pad_len len)
        ++ (bit_len / 2 ^ 56 % 256
            ∷ bit_len / 2 ^ 48 % 256
            ∷ bit_len / 2 ^ 40 % 256
            ∷ bit_len / 2 ^ 32 % 256
            ∷ bit_len / 2 ^ 24 % 256
            ∷ bit_len / 2 ^ 16 % 256
            ∷ bit_len / 2 ^ 8 % 256
            ∷ bit_len % 256
            ∷ []))

pub padded : List ℕ → List ℕ
padded bytes = bytes ++ padding (length bytes)

-- The eight words `H`, and the working variables `a` to `h`.
pub record Words : Type 0 where
  pub a : ℕ
  pub b : ℕ
  pub c : ℕ
  pub d : ℕ
  pub e : ℕ
  pub f : ℕ
  pub g : ℕ
  pub h : ℕ

abbrev initial_words : Words
initial_words = record {
  a = 0x6a09e667;
  b = 0xbb67ae85;
  c = 0x3c6ef372;
  d = 0xa54ff53a;
  e = 0x510e527f;
  f = 0x9b05688c;
  g = 0x1f83d9ab;
  h = 0x5be0cd19;
}

abbrev word_at : List ℕ → ℕ → ℕ
word_at ws i = or_else (get_elem? ws i) 0

-- The first sixteen words of a block, the last in front.
block_words : ℕ → List ℕ → List ℕ → List ℕ
block_words zero bytes acc = acc
block_words (suc n) bytes acc = block_words n (drop 4 bytes) (
    (word_at bytes 0 * 2 ^ 24
      + word_at bytes 1 * 2 ^ 16
      + word_at bytes 2 * 2 ^ 8
      + word_at bytes 3)
    ∷ acc)

-- The schedule `W`, extended word by word; `W[i - k]` stands at `k - 1`.
extend_words : ℕ → List ℕ → List ℕ
unfolding rotr
extend_words zero ws = ws
extend_words (suc n) ws =
    let w15 = word_at ws 14 in
    let w2 = word_at ws 1 in
    let s0 = bit_xor (bit_xor (rotr w15 7) (rotr w15 18)) (w15 / 2 ^ 3) in
    let s1 = bit_xor (bit_xor (rotr w2 17) (rotr w2 19)) (w2 / 2 ^ 10) in
    extend_words n ((word_at ws 15 + s0 + word_at ws 6 + s1) % word_size ∷ ws)

round : Words → ℕ → ℕ → Words
unfolding rotr
round v k w =
    let s1 = bit_xor (bit_xor (rotr v.e 6) (rotr v.e 11)) (rotr v.e 25) in
    let ch = bit_xor (bit_and v.e v.f) (bit_and (word_size - 1 - v.e) v.g) in
    let t1 = (v.h + s1 + ch + k + w) % word_size in
    let s0 = bit_xor (bit_xor (rotr v.a 2) (rotr v.a 13)) (rotr v.a 22) in
    let maj = bit_xor (bit_xor (bit_and v.a v.b) (bit_and v.a v.c)) (bit_and v.b v.c) in
    let t2 = (s0 + maj) % word_size in
    record {
      a = (t1 + t2) % word_size;
      b = v.a;
      c = v.b;
      d = v.c;
      e = (v.d + t1) % word_size;
      f = v.e;
      g = v.f;
      h = v.g;
    }

rounds : Words → List ℕ → List ℕ → Words
unfolding round
rounds v [] ws = v
rounds v (k ∷ ks) [] = v
rounds v (k ∷ ks) (w ∷ ws) = rounds (round v k w) ks ws

reverse_onto : List ℕ → List ℕ → List ℕ
reverse_onto [] acc = acc
reverse_onto (x ∷ xs) acc = reverse_onto xs (x ∷ acc)

add_words : Words → Words → Words
add_words u v = record {
  a = (u.a + v.a) % word_size;
  b = (u.b + v.b) % word_size;
  c = (u.c + v.c) % word_size;
  d = (u.d + v.d) % word_size;
  e = (u.e + v.e) % word_size;
  f = (u.f + v.f) % word_size;
  g = (u.g + v.g) % word_size;
  h = (u.h + v.h) % word_size;
}

compress : Words → List ℕ → Words
unfolding block_words extend_words rounds reverse_onto add_words
compress v block =
    add_words v (rounds v sha256_k (reverse_onto (extend_words 48 (block_words 16 block [])) []))

-- The loop over the blocks, one for each 64 bytes.
blocks : ℕ → Words → List ℕ → Words
unfolding compress
blocks zero v bytes = v
blocks (suc n) v bytes = blocks n (compress v (take 64 bytes)) (drop 64 bytes)

abbrev word_bytes : ℕ → List ℕ
word_bytes w = w / 2 ^ 24 % 256 ∷ w / 2 ^ 16 % 256 ∷ w / 2 ^ 8 % 256 ∷ w % 256 ∷ []

unfoldable pub sha256_bytes : List ℕ → List ℕ
unfolding blocks padded padding zeros pad_len
sha256_bytes bytes =
    let buf = padded bytes in
    let v = blocks (length buf / 64) initial_words buf in
    word_bytes v.a
    ++ word_bytes v.b
    ++ word_bytes v.c
    ++ word_bytes v.d
    ++ word_bytes v.e
    ++ word_bytes v.f
    ++ word_bytes v.g
    ++ word_bytes v.h

-- The little-endian word of the first four bytes.
unfoldable pub seed_from_string : Str → ℕ
unfolding utf8_encode sha256_bytes
seed_from_string s =
    let bytes = sha256_bytes (utf8_encode s) in
    bit_or (bit_or (bit_or (word_at bytes 0) (word_at bytes 1 * 2 ^ 8)) (word_at bytes 2 * 2 ^ 16))
      (word_at bytes 3 * 2 ^ 24)
    % word_size

length-zeros : (n : ℕ) → length (zeros n) ≡ n
unfolding zeros
length-zeros zero = refl
length-zeros (suc n) = omega (arith, length-zeros n)

length-padding : (len : ℕ) → length (padding len) ≡ 9 + pad_len len
unfolding padding
length-padding len =
    omega (arith, length-append (zeros (pad_len len)) _, length-zeros (pad_len len))

-- The padded message fills whole blocks of 64 bytes.
pub length-padded : (bytes : List ℕ) → length (padded bytes) % 64 ≡ 0
unfolding padded pad_len
length-padded bytes =
    omega (arith, length-append bytes (padding (length bytes)), length-padding (length bytes))

-- The digest has 32 entries, each a byte.
pub sha256_bytes-bytes :
    (bytes : List ℕ) → (length (sha256_bytes bytes) ≡ 32) × All (λ x. x < 256) (sha256_bytes bytes)
unfolding sha256_bytes
sha256_bytes-bytes bytes = (refl, omega arith)

sha256_abc :
    sha256_bytes (utf8_encode (lit "abc"))
    ≡ 0xba ∷ 0x78 ∷ 0x16 ∷ 0xbf ∷ 0x8f ∷ 0x01 ∷ 0xcf ∷ 0xea ∷ 0x41 ∷ 0x41 ∷ 0x40 ∷ 0xde ∷ 0x5d
      ∷ 0xae ∷ 0x22 ∷ 0x23 ∷ 0xb0 ∷ 0x03 ∷ 0x61 ∷ 0xa3 ∷ 0x96 ∷ 0x17 ∷ 0x7a ∷ 0x9c ∷ 0xb4 ∷ 0x10
      ∷ 0xff ∷ 0x61 ∷ 0xf2 ∷ 0x00 ∷ 0x15 ∷ 0xad ∷ []
unfolding sha256_bytes utf8_encode
sha256_abc = refl
