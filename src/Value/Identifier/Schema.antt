-- ===== src/Value/Identifier/Schema.antt =====
-- What `parse` of an identifier accepts, beside what the published schema says: at most 255
-- characters, none of them a control character.
use nautilus_agents.Base.{
  ℕ, ◌+◌, ◌≤◌, ◌<◌, ◌≡◌, refl, ap, ◌↔◌, ◌⊎◌, inr, false, [], ◌∷◌, arith, length, any, All, ok, err,
  list_eq, nat_eq,
}
use nautilus_agents.Text.{Text, len, bytes, utf8, IsAscii, bytes_ascii}
use nautilus_agents.Value.Errors.{identifier_too_long}
use nautilus_agents.Value.Identifier.{Kind, identifier_max_bytes, is_control, parse}

-- A character that the pattern `[^\u0000-\u001f\u007f-\u009f]` allows.
abbrev pub IsPrintable : ℕ → Type 0
IsPrintable c = (0x1f < c) × ((c < 0x7f) ⊎ (0x9f < c))

-- `minLength` 1, `maxLength` 255 and the pattern; JSON Schema counts characters.
pub record MatchesSchema (t : Text) : Type 0 where
  pub least : 1 ≤ length t
  pub most : length t ≤ 255
  pub pattern_holds : All IsPrintable t

pub length-le-len : (t : Text) → length t ≤ len t
unfolding bytes utf8
length-le-len [] = omega arith
length-le-len (c ∷ t) = ground (arith, length-le-len t)

IsPrintable-iff : (t : Text) → (any is_control t ≡ false) ↔ All IsPrintable t
IsPrintable-iff [] = (λ _. tt, λ _. refl)
IsPrintable-iff (c ∷ t) = (
  λ h. (ground arith, (IsPrintable-iff t).0 (ground arith)),
  λ (p, h). ground (arith, (IsPrintable-iff t).1 h),
)

-- What is accepted: the schema, and at most 255 bytes.
pub parse-MatchesSchema :
    {k : Kind} (t : Text)
    → (parse {k = k} t ≡ ok (record { text = t }))
      ↔ (MatchesSchema t × (len t ≤ identifier_max_bytes))
unfolding parse
parse-MatchesSchema [] = (λ h. cc, λ (m, l). absurd (omega arith))
parse-MatchesSchema (c ∷ t) = (
  λ h. (
    record {
      least = omega arith;
      most = ground (arith, length-le-len (c ∷ t));
      pattern_holds = (IsPrintable-iff (c ∷ t)).0 (ground arith);
    },
    ground arith,
  ),
  λ (m, l). let p = (IsPrintable-iff (c ∷ t)).1 m.pattern_holds in ground arith,
)

wide_len : (t : Text) → All (λ c. 0x9f < c) t → length t + length t ≤ len t
unfolding bytes utf8
wide_len [] h = omega arith
wide_len (c ∷ t) (p, h) = ground (arith, wide_len t h)

wide-IsPrintable : (t : Text) → All (λ c. 0x9f < c) t → All IsPrintable t
wide-IsPrintable [] h = tt
wide-IsPrintable (c ∷ t) (p, h) = ((omega arith, inr p), wide-IsPrintable t h)

-- A text of 128 to 255 characters, each above U+009F, meets the schema and is refused as too long:
-- the schema counts characters and the code counts bytes.
pub parse-schema_gap :
    {k : Kind} (t : Text)
    → 128 ≤ length t
    → length t ≤ 255
    → All (λ c. 0x9f < c) t
    → MatchesSchema t × (parse {k = k} t ≡ err identifier_too_long)
unfolding parse
parse-schema_gap [] l m h = absurd (omega arith)
parse-schema_gap (c ∷ t) l m h = (
  record { least = omega arith; most = m; pattern_holds = wide-IsPrintable (c ∷ t) h },
  ground (arith, wide_len (c ∷ t) h),
)

-- On ASCII texts the schema and the code agree.
pub parse-IsAscii :
    {k : Kind} (t : Text)
    → IsAscii t
    → (parse {k = k} t ≡ ok (record { text = t })) ↔ MatchesSchema t
parse-IsAscii t a =
    let same : len t ≡ length t = ap (length {0}) (bytes_ascii t a) in
    (
      λ h. ((parse-MatchesSchema t).0 h).0,
      λ m. (parse-MatchesSchema t).1 (m, omega (arith, same, m.most)),
    )
