-- ===== src/Value/FieldPath/Grammar.antt =====
-- `FieldPath::parse` accepts the JSON Pointers of RFC 6901, which are those of the published pattern
-- `^(?:|(?:/(?:[^~/]|~[01])*)+)$`.
use nautilus_agents.Base.{
  ℕ, ◌≡◌, refl, ◌≢◌, ◌↔◌, ◌⊎◌, inl, inr, true, false, [], ◌∷◌, arith, eqb, ok, err, list_eq, nat_eq,
  Bool-cases,
}
use nautilus_agents.Text.{Text}
use nautilus_agents.Value.Errors.{field_path_format}
use nautilus_agents.Value.FieldPath.{is_escape, escapes_valid, parse}

-- What may stand behind a slash: plain characters, escapes, and further tokens.
pub data IsTokens : Text → Type 0 where
  end : IsTokens []
  slash : (c : ℕ) (s : Text) → c ≡ b'/' → IsTokens s → IsTokens (c ∷ s)
  plain : (c : ℕ) (s : Text) → c ≢ b'~' → c ≢ b'/' → IsTokens s → IsTokens (c ∷ s)
  escape :
      (c d : ℕ) (s : Text) → c ≡ b'~' → (d ≡ b'0') ⊎ (d ≡ b'1') → IsTokens s → IsTokens (c ∷ d ∷ s)

-- The empty text names the whole document; any other pointer is a slash and its tokens.
pub data IsPointer : Text → Type 0 where
  root : IsPointer []
  tokens : (c : ℕ) (s : Text) → c ≡ b'/' → IsTokens s → IsPointer (c ∷ s)

tokens_valid : {s : Text} → IsTokens s → escapes_valid s ≡ true
unfolding escapes_valid
tokens_valid end = refl
tokens_valid (slash c [] e t) = ground arith
tokens_valid (slash c (d ∷ s) e t) = ground (arith, tokens_valid t)
tokens_valid (plain c [] n m t) = ground arith
tokens_valid (plain c (d ∷ s) n m t) = ground (arith, tokens_valid t)
tokens_valid (escape c d s e (inl z) t) = ground (arith, tokens_valid t)
tokens_valid (escape c d s e (inr z) t) = ground (arith, tokens_valid t)

plain_or_slash : (c : ℕ) (s : Text) → eqb c b'~' ≡ false → IsTokens s → IsTokens (c ∷ s)
plain_or_slash c s h t = elim (Bool-cases (eqb c b'/')) [
  | inl e ↦ slash c s (ground arith) t
  | inr e ↦ plain c s (ground arith) (ground arith) t
]

valid-IsTokens : (s : Text) → escapes_valid s ≡ true → IsTokens s
unfolding escapes_valid
valid-IsTokens [] h = end
valid-IsTokens (c ∷ []) h = plain_or_slash c [] (ground arith) end
valid-IsTokens (c ∷ d ∷ s) h = elim (Bool-cases (eqb c b'~')) [
  | inl e ↦ elim (Bool-cases (is_escape d)) [
    | inl f ↦ escape c d s (ground arith) (ground arith) (valid-IsTokens s (ground arith))
    | inr f ↦ absurd (ground arith)
  ]
  | inr e ↦ plain_or_slash c (d ∷ s) e (valid-IsTokens (d ∷ s) (ground arith))
]

slash_valid : (c : ℕ) (s : Text) → c ≡ b'/' → escapes_valid (c ∷ s) ≡ escapes_valid s
unfolding escapes_valid
slash_valid c [] e = ground arith
slash_valid c (d ∷ s) e = ground arith

pointer_accepted : {t : Text} → IsPointer t → parse t ≡ ok (record { text = t })
unfolding parse
pointer_accepted root = refl
pointer_accepted (tokens c s e h) = rw (slash_valid c s e, tokens_valid h) (ground arith)

accepted-IsPointer : (t : Text) → parse t ≡ ok (record { text = t }) → IsPointer t
unfolding parse
accepted-IsPointer [] h = root
accepted-IsPointer (c ∷ s) h =
    let e : c ≡ b'/' = ground arith in
    tokens c s e (valid-IsTokens s (ground (arith, slash_valid c s)))

-- `FieldPath::parse` accepts a text, and then keeps it as it is, exactly when it is a JSON Pointer.
pub parse-IsPointer : (t : Text) → (parse t ≡ ok (record { text = t })) ↔ IsPointer t
parse-IsPointer t = (accepted-IsPointer t, pointer_accepted)

-- A text is either kept or refused with the one error.
pub parse_cases :
    (t : Text) → (parse t ≡ ok (record { text = t })) ⊎ (parse t ≡ err field_path_format)
unfolding parse
parse_cases t = ground arith
