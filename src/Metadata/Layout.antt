-- ===== src/Metadata/Layout.antt =====
-- Reading and writing the fields of a C++ structure.
use sgx_secfs.Base.{
  ℕ, zero, suc, ◌<◌, ◌≤◌, ◌^◌, ◌≡◌, refl, ap, ◌∙◌, [], ◌∷◌, ◌++◌, arith, Bytes, length, take, drop,
  All, le_bytes, le_value, length-le_bytes, le_value-le_bytes, take-append, drop-append,
  length-take, ◌==◌, nat_eq, length-append, if◌then◌else◌,
}

-- The modulus of `size_t` and of `ino_t`.
abbrev pub size_mod : ℕ
size_mod = 2 ^ 64

-- The little-endian word that the first `w` bytes hold.
unfoldable pub word : ℕ → Bytes → ℕ
word w buf = le_value (take w buf)

unfoldable pub zeros : ℕ → Bytes
zeros zero = []
zeros (suc n) = 0 ∷ zeros n

-- A field of `w` bytes that `memset` clears, and the text that `std::string::copy` puts there.
unfoldable pub text_field : ℕ → Bytes → Bytes
text_field w s = take w (s ++ zeros w)

-- A C string: the bytes before the first zero, wherever that is.
unfoldable pub c_string : Bytes → Bytes
c_string [] = []
c_string (c ∷ cs) = if c == 0 then [] else c ∷ c_string cs

-- A text that a field of `w` bytes holds with its terminator.
pub record IsText (w : ℕ) (s : Bytes) : Type 0 where
  pub short : length s < w
  pub chars : All (λ c. 0 < c) s

length-zeros : (n : ℕ) → length (zeros n) ≡ n
unfolding zeros
length-zeros zero = refl
length-zeros (suc n) = ap suc (length-zeros n)

pub length-text_field : (w : ℕ) (s : Bytes) → length (text_field w s) ≡ w
unfolding text_field
length-text_field w s =
    omega (arith, length-take w (s ++ zeros w), length-append s (zeros w), length-zeros w)

c_string-take :
    (w m : ℕ) (s rest : Bytes)
    → length s < w
    → 0 < m
    → All (λ c. 0 < c) s
    → c_string (take w (s ++ zeros m) ++ rest) ≡ s
unfolding c_string zeros
c_string-take (suc w) (suc m) [] rest h k a = ground arith
c_string-take (suc w) m (c ∷ s) rest h k a = ground (arith, c_string-take w m s rest)
c_string-take w m s rest h k a = absurd (omega arith)

pub c_string-text_field :
    (w : ℕ) (s rest : Bytes) → IsText w s → c_string (text_field w s ++ rest) ≡ s
unfolding text_field
c_string-text_field w s rest t = c_string-take w w s rest t.short (omega (arith, t.short)) t.chars

pub word-le_bytes : (w n : ℕ) (rest : Bytes) → n < 256 ^ w → word w (le_bytes w n ++ rest) ≡ n
unfolding word
word-le_bytes w n rest h =
    ap le_value (take-append w (le_bytes w n) rest (length-le_bytes w n)) ∙ le_value-le_bytes w n h

pub drop-le_bytes : (w n : ℕ) (rest : Bytes) → drop w (le_bytes w n ++ rest) ≡ rest
drop-le_bytes w n rest = drop-append w (le_bytes w n) rest (length-le_bytes w n)

take-prefix :
    (w : ℕ) (s t rest : Bytes) → length s ≤ w → take (length s) (take w (s ++ t) ++ rest) ≡ s
take-prefix w [] t rest h = refl
take-prefix zero (c ∷ s) t rest h = absurd (omega arith)
take-prefix (suc w) (c ∷ s) t rest h = ap (◌∷◌ c) (take-prefix w s t rest (omega arith))

pub drop-text_field : (w : ℕ) (s rest : Bytes) → drop w (text_field w s ++ rest) ≡ rest
drop-text_field w s rest = drop-append w (text_field w s) rest (length-text_field w s)

pub take-text_field :
    (w : ℕ) (s rest : Bytes) → length s ≤ w → take (length s) (text_field w s ++ rest) ≡ s
unfolding text_field
take-text_field w s rest h = take-prefix w s (zeros w) rest h
