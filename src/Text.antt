-- ===== src/Text.antt =====
-- Rust texts: a `str` is the list of its code points, and its bytes are their UTF-8 encoding.
use Prim.Native.Char.{code}
use nautilus_agents.Base.{
  suc, ◌≤◌, Bool, true, false, ◌&&◌, leb, eqb, all, Option, none, some, inl, inr, Bool-cases, ℕ,
  ◌+◌, ◌/◌, ◌%◌, ◌<◌, String, ◌≡◌, refl, List, [], ◌∷◌, ◌++◌, arith, ltb, if◌then◌else◌, length,
  All,
}

abbrev pub Text : Type 0
Text = List ℕ

-- The code points of a literal.
abbrev pub codes : String → Text
codes String.[] = []
codes (String.◌∷◌ c s) = code c ∷ codes s

unfoldable pub utf8 : ℕ → List ℕ
utf8 c =
    if ltb c 128
    then c ∷ []
    else if ltb c 2048
    then (192 + c / 64) ∷ (128 + c % 64) ∷ []
    else if ltb c 65536
    then (224 + c / 4096) ∷ (128 + c / 64 % 64) ∷ (128 + c % 64) ∷ []
    else (240 + c / 262144) ∷ (128 + c / 4096 % 64) ∷ (128 + c / 64 % 64) ∷ (128 + c % 64) ∷ []

-- `str::bytes`
unfoldable pub bytes : Text → List ℕ
unfolding utf8
bytes [] = []
bytes (c ∷ s) = utf8 c ++ bytes s

-- `str::len` counts bytes
abbrev pub len : Text → ℕ
len s = length (bytes s)

abbrev pub IsAscii : Text → Type 0
IsAscii = All (λ c. c < 128)

-- An ASCII text is its own encoding.
pub bytes_ascii : (s : Text) → IsAscii s → bytes s ≡ s
unfolding bytes
bytes_ascii [] h = refl
bytes_ascii (c ∷ s) (hc, h) = ground (arith, bytes_ascii s h)

-- `str::is_empty`
abbrev pub is_empty {ℓ} : {A : Type ℓ} → List A → Bool
is_empty [] = true
is_empty (c ∷ s) = false

-- `str::starts_with` on a test of characters
abbrev pub starts_with : (ℕ → Bool) → Text → Bool
starts_with p [] = false
starts_with p (c ∷ s) = p c

-- `str::ends_with` on a test of characters
unfoldable pub ends_with : (ℕ → Bool) → Text → Bool
ends_with p [] = false
ends_with p (c ∷ []) = p c
ends_with p (c ∷ d ∷ s) = ends_with p (d ∷ s)

-- `filter(p).count()`
unfoldable pub count : (ℕ → Bool) → List ℕ → ℕ
count p [] = 0
count p (b ∷ s) = let n = count p s in if p b then suc n else n

abbrev pub push_front : ℕ → Option (Text × Text) → Option (Text × Text)
push_front c none = none
push_front c (some (a, b)) = some (c ∷ a, b)

-- `str::split_once` on a character
unfoldable pub split_once : ℕ → Text → Option (Text × Text)
split_once sep [] = none
split_once sep (c ∷ s) = if eqb c sep then some ([], s) else push_front c (split_once sep s)

abbrev pub is_ascii_digit : ℕ → Bool
is_ascii_digit b = leb b'0' b && leb b b'9'

abbrev pub IsAsciiDigit : ℕ → Type 0
IsAsciiDigit b = (b'0' ≤ b) × (b ≤ b'9')

-- If every byte passes a test that only ASCII passes, so does every character, and the bytes are
-- the characters.
pub all-bytes :
    (p : ℕ → Bool) (h : (b : ℕ) → p b ≡ true → b < 128) (s : Text)
    → all p (bytes s) ≡ true
    → (bytes s ≡ s) × (all p s ≡ true)
unfolding bytes
all-bytes p h [] e = (refl, refl)
all-bytes p h (c ∷ s) e = elim (Bool-cases (ltb c 128)) [
  | inl ascii ↦ ground (arith, all-bytes p h s)
  | inr wide ↦ absurd (ground (arith, h (192 + c / 64), h (224 + c / 4096), h (240 + c / 262144)))
]

pub IsAscii-digits : (s : Text) → All IsAsciiDigit s → IsAscii s
IsAscii-digits [] h = tt
IsAscii-digits (c ∷ s) (hc, h) = (omega arith, IsAscii-digits s h)

-- `str::starts_with` on a text
abbrev pub is_prefix : Text → Text → Bool
is_prefix [] s = true
is_prefix (c ∷ p) [] = false
is_prefix (c ∷ p) (d ∷ s) = eqb c d && is_prefix p s

abbrev pub push_first : ℕ → List Text → List Text
push_first c [] = (c ∷ []) ∷ []
push_first c (s ∷ rest) = (c ∷ s) ∷ rest

-- `str::split` on a character
unfoldable pub split : ℕ → Text → List Text
split sep [] = [] ∷ []
split sep (c ∷ s) = if eqb c sep then [] ∷ split sep s else push_first c (split sep s)
