-- ===== src/Contract/FieldsFile.antt =====
-- `fields_bytes`: the text of `contract/v1/fields.toml`. `serde_json::from_slice` and the `{:?}` of a
-- text are library code, and parameters; an error is given by its text.
pub mod Declared
use nautilus_agents.Base.{ℕ, Bool, true, false, List, [], ◌∷◌, ◌++◌, Result, ok, ◌>>=◌}
use nautilus_agents.Text.{Text, codes, bytes}
use nautilus_agents.Contract.Json.{Value}
use nautilus_agents.Contract.Asset.{Asset}
use nautilus_agents.Contract.Fields.{
  Field, collect_fields, field_owner, field_retention, field_digest_covered,
}

abbrev pub bool_text : Bool → Text
bool_text true = codes "true"
bool_text false = codes "false"

abbrev pub newline : Text
newline = 10 ∷ []

-- `String::pop`, its result dropped
unfoldable pub pop : Text → Text
pop [] = []
pop (c ∷ []) = []
pop (c ∷ d ∷ s) = c ∷ pop (d ∷ s)

abbrev pub fields_header : Text
fields_header =
    codes "# Generated by agent-contract-schema. Change Rust DTOs or generator metadata rules."
    ++ newline
    ++ newline

module _ (debug : Text → Text) where
  unfoldable pub field_text : Field → Text
  unfolding field_owner field_retention field_digest_covered
  field_text f =
      codes "[[field]]"
      ++ newline
      ++ codes "root_type = "
      ++ debug f.root_type
      ++ newline
      ++ codes "container = "
      ++ debug f.container
      ++ newline
      ++ codes "name = "
      ++ debug f.name
      ++ newline
      ++ codes "owner = "
      ++ debug (field_owner f)
      ++ newline
      ++ codes "stability = \"protocol_1_0\""
      ++ newline
      ++ codes "required = "
      ++ bool_text f.required
      ++ newline
      ++ codes "retention = "
      ++ debug (field_retention f)
      ++ newline
      ++ codes "digest_covered = "
      ++ bool_text (field_digest_covered f)
      ++ newline
      ++ newline

  unfoldable pub push_fields : List Field → Text → Text
  unfolding field_text
  push_fields [] output = output
  push_fields (f ∷ fs) output = push_fields fs (output ++ field_text f)

module _ (from_slice : List ℕ → Result Value Text) where
  unfoldable pub schema_fields : List Asset → List Field → Result (List Field) Text
  unfolding collect_fields
  schema_fields [] fields = ok fields
  schema_fields (schema ∷ schemas) fields = do
    value ← from_slice schema.bytes
    schema_fields schemas (collect_fields schema.root_type schema.root_type value fields)

  unfoldable pub fields_bytes : (Text → Text) → List Asset → Result (List ℕ) Text
  unfolding schema_fields push_fields pop bytes
  fields_bytes debug schemas = do
    fields ← schema_fields schemas []
    ok (bytes (pop (push_fields debug fields fields_header)))
