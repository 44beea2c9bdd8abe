-- ===== src/Uuid/Unparse.antt =====
-- The text of a UUID, which names its file in the storage.
use sgx_secfs.Base.{
  ◌≢◌, ℕ_discrete, ℕ, zero, suc, ◌+◌, ◌-◌, ◌*◌, ◌/◌, ◌%◌, ◌<◌, ◌≡◌, refl, sym, ap, [], ◌∷◌, ◌++◌,
  arith, Bytes, length, take, drop, All, ltb, length-append, length-take, length-drop, ◌==◌, nat_eq,
  if◌then◌else◌,
}
use mathlib.Core.List.{append-nil}
use mathlib.Core.Path.{◌≡⟨◌⟩◌, ◌∎}
use sgx_secfs.Uuid.{Uuid, IsUuid, hex_digit, hex, unparse}

-- A reader of the text.
strip : Bytes → Bytes
strip [] = []
strip (c ∷ cs) = let rest = strip cs in if c == b'-' then rest else c ∷ rest

digit : ℕ → ℕ
digit c = if ltb c 58 then c - 48 else c - 87

unhex : Bytes → Bytes
unfolding digit
unhex [] = []
unhex (a ∷ []) = []
unhex (a ∷ b ∷ cs) = (16 * digit a + digit b) ∷ unhex cs

strip-hex : (bs cs : Bytes) → All (λ b. b < 256) bs → strip (hex bs ++ cs) ≡ hex bs ++ strip cs
unfolding strip hex
strip-hex [] cs h = refl
strip-hex (b ∷ bs) cs h = ground (arith, strip-hex bs cs h.1)

unhex-hex : (bs : Bytes) → All (λ b. b < 256) bs → unhex (hex bs) ≡ bs
unfolding unhex hex
unhex-hex [] h = refl
unhex-hex (b ∷ bs) h = ground (arith, unhex-hex bs h.1)

hex-append : (bs cs : Bytes) → hex (bs ++ cs) ≡ hex bs ++ hex cs
unfolding hex
hex-append [] cs = refl
hex-append (b ∷ bs) cs = rw (hex-append bs cs)

All-take : (n : ℕ) (bs : Bytes) → All (λ b. b < 256) bs → All (λ b. b < 256) (take n bs)
All-take zero bs h = tt
All-take (suc n) [] h = tt
All-take (suc n) (b ∷ bs) h = (h.0, All-take n bs h.1)

All-drop : (n : ℕ) (bs : Bytes) → All (λ b. b < 256) bs → All (λ b. b < 256) (drop n bs)
All-drop zero bs h = h
All-drop (suc n) [] h = tt
All-drop (suc n) (b ∷ bs) h = All-drop n bs h.1

regroup :
    (u : Uuid)
    → length u ≡ 16
    → take 4 u
        ++ (take 2 (drop 4 u) ++ (take 2 (drop 6 u) ++ (take 2 (drop 8 u) ++ take 6 (drop 10 u))))
      ≡ u
regroup (a ∷ b ∷ c ∷ d ∷ e ∷ f ∷ g ∷ h ∷ i ∷ j ∷ k ∷ l ∷ m ∷ n ∷ o ∷ p ∷ []) _ = refl
regroup u w = absurd (omega arith)

strip-group :
    (bs cs : Bytes) → All (λ b. b < 256) bs → strip (hex bs ++ (b'-' ∷ cs)) ≡ hex bs ++ strip cs
unfolding strip ℕ_discrete
strip-group bs cs h = strip-hex bs (b'-' ∷ cs) h

strip-last : (bs : Bytes) → All (λ b. b < 256) bs → strip (hex bs) ≡ hex bs
unfolding strip
strip-last bs h = rw (append-nil (hex bs)) at (strip-hex bs [] h)

strip-unparse : (u : Uuid) → IsUuid u → strip (unparse u) ≡ hex u
unfolding unparse
strip-unparse u v = rw (
  strip-group (take 4 u) _ (All-take 4 u v.bytes),
  strip-group (take 2 (drop 4 u)) _ (part 2 4),
  strip-group (take 2 (drop 6 u)) _ (part 2 6),
  strip-group (take 2 (drop 8 u)) _ (part 2 8),
  strip-last (take 6 (drop 10 u)) (part 6 10),
  ← hex-append (take 2 (drop 8 u)) _,
  ← hex-append (take 2 (drop 6 u)) _,
  ← hex-append (take 2 (drop 4 u)) _,
  ← hex-append (take 4 u) _,
  regroup u v.long,
)
  where
    part : (n m : ℕ) → All (λ b. b < 256) (take n (drop m u))
    part n m = All-take n (drop m u) (All-drop m u v.bytes)

-- Two UUIDs of 16 bytes have the same text only if they are the same.
pub unparse-injective : (u v : Uuid) → IsUuid u → IsUuid v → unparse u ≡ unparse v → u ≡ v
unparse-injective u v p q e =
    u
    ≡⟨ sym (unhex-hex u p.bytes) ⟩ unhex (hex u)
    ≡⟨ ap unhex (sym (strip-unparse u p)) ⟩ unhex (strip (unparse u))
    ≡⟨ ap (λ (t : Bytes). unhex (strip t)) e ⟩ unhex (strip (unparse v))
    ≡⟨ ap unhex (strip-unparse v q) ⟩ unhex (hex v)
    ≡⟨ unhex-hex v q.bytes ⟩ v ∎

-- A character of a file name: neither the terminator nor the separator of a path.
abbrev pub IsNameChar : ℕ → Type 0
IsNameChar c = (0 < c) × (c ≢ b'/') × (c < 128)

length-hex : (bs : Bytes) → length (hex bs) ≡ length bs + length bs
unfolding hex
length-hex [] = omega arith
length-hex (b ∷ bs) = omega (arith, length-hex bs)

digit-IsNameChar : (d : ℕ) → d < 16 → IsNameChar (hex_digit d)
unfolding hex_digit
digit-IsNameChar d h = ground arith

hex-IsNameChar : (bs : Bytes) → All (λ b. b < 256) bs → All IsNameChar (hex bs)
unfolding hex
hex-IsNameChar [] h = tt
hex-IsNameChar (b ∷ bs) h = (
  digit-IsNameChar (b / 16) (omega arith),
  (digit-IsNameChar (b % 16) (omega arith), hex-IsNameChar bs h.1),
)

All-append : (xs ys : Bytes) → All IsNameChar xs → All IsNameChar ys → All IsNameChar (xs ++ ys)
All-append [] ys h k = k
All-append (x ∷ xs) ys h k = (h.0, All-append xs ys h.1 k)

-- The text of a UUID of 16 bytes has 36 characters, so that it fits the buffers of 37 and 40 bytes
-- with its terminator, and each of them may stand in a file name.
pub unparse-IsNameChar :
    (u : Uuid) → IsUuid u → (length (unparse u) ≡ 36) × All IsNameChar (unparse u)
unfolding unparse
unparse-IsNameChar u v = (
  simp (length-append, length-hex, length-take, length-drop) (omega (arith, v.long)),
  group (take 4 u) _ (All-take 4 u v.bytes) (
      group (take 2 (drop 4 u)) _ (part 2 4) (
        group (take 2 (drop 6 u)) _ (part 2 6) (
          group (take 2 (drop 8 u)) _ (part 2 8)
            (hex-IsNameChar (take 6 (drop 10 u)) (part 6 10))))),
)
  where
    part : (n m : ℕ) → All (λ b. b < 256) (take n (drop m u))
    part n m = All-take n (drop m u) (All-drop m u v.bytes)

    group :
        (bs cs : Bytes)
        → All (λ b. b < 256) bs
        → All IsNameChar cs
        → All IsNameChar (hex bs ++ (b'-' ∷ cs))
    group bs cs h k = All-append (hex bs) (b'-' ∷ cs) (hex-IsNameChar bs h) (omega arith, k)
