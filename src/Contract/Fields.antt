-- ===== src/Contract/Fields.antt =====
-- The published fields: `collect_fields` and the rules for their metadata.
pub mod Occurs
pub mod Sound
pub mod Complete
pub mod Collected
use nautilus_agents.Base.{
  ◌≡◌, Bool, ◌&&◌, ◌||◌, not, List, arith, if◌then◌else◌, contains, Option, some, ◌==◌, list_eq,
  nat_eq,
}
use nautilus_agents.Base.{TotalOrder, text_order, bool_order, pair_order, key_order, insert_ordered}
use nautilus_agents.Text.{Text, codes}
use nautilus_agents.Contract.Json.{
  Value, Values, Members, null, boolean, number, string, array, object, nil, cons, end, member, get,
  array_texts,
}

pub record Field : Type 0 where
  pub root_type : Text
  pub container : Text
  pub name : Text
  pub required : Bool

-- The fields in the order of their declaration, by which the derived `Ord` compares.
abbrev pub field_key : Field → Text × (Text × (Text × Bool))
field_key f = (f.root_type, (f.container, (f.name, f.required)))

pub field_key_injective : (a b : Field) → field_key a ≡ field_key b → a ≡ b
field_key_injective a b h = ground arith

instance abbrev pub field_order : TotalOrder Field
field_order =
    key_order field_key field_key_injective
      (pair_order text_order (pair_order text_order (pair_order text_order bool_order)))

-- The container of an object's fields: its title, or else the container that it stands in.
abbrev pub title_or : Option Value → Text → Text
title_or (some (string t)) container = t
title_or _ container = container

abbrev pub title : Members → Text → Text
title ms container = title_or (get (codes "title") ms) container

abbrev pub required_names : Members → List Text
required_names ms = array_texts (get (codes "required") ms)

abbrev pub is_collected : Text → Bool
is_collected key = key == codes "$defs" || key == codes "properties" || key == codes "required"

module _ (root : Text) where
  -- `get("properties")` and `get("$defs")` stop at the first entry of that key.
  unfoldable mutual
    pub collect_fields : Text → Value → List Field → List Field
    collect_fields container (object ms) fields = collect_members (title ms container) ms (
        collect_definitions ms
          (collect_properties (title ms container) (required_names ms) ms fields))
    collect_fields container (array vs) fields = collect_values container vs fields
    collect_fields container null fields = fields
    collect_fields container (boolean b) fields = fields
    collect_fields container (number n) fields = fields
    collect_fields container (string t) fields = fields

    collect_values : Text → Values → List Field → List Field
    collect_values container nil fields = fields
    collect_values container (cons v vs) fields =
        collect_values container vs (collect_fields container v fields)

    collect_members : Text → Members → List Field → List Field
    collect_members container end fields = fields
    collect_members container (member key v ms) fields =
        collect_members container ms
          (if is_collected key then fields else collect_fields container v fields)

    collect_properties : Text → List Text → Members → List Field → List Field
    collect_properties container required end fields = fields
    collect_properties container required (member key v ms) fields =
        let rest = collect_properties container required ms fields in
        if key == codes "properties" then object_properties container required v fields else rest

    object_properties : Text → List Text → Value → List Field → List Field
    object_properties container required (object ps) fields =
        insert_properties container required ps fields
    object_properties container required (array vs) fields = fields
    object_properties container required null fields = fields
    object_properties container required (boolean b) fields = fields
    object_properties container required (number n) fields = fields
    object_properties container required (string t) fields = fields

    insert_properties : Text → List Text → Members → List Field → List Field
    insert_properties container required end fields = fields
    insert_properties container required (member name schema ps) fields =
        insert_properties container required ps (
          collect_fields container schema (
            insert_ordered
              (record {
                root_type = root;
                container = container;
                name = name;
                required = contains name required;
              })
              fields))

    collect_definitions : Members → List Field → List Field
    collect_definitions end fields = fields
    collect_definitions (member key v ms) fields =
        let rest = collect_definitions ms fields in
        if key == codes "$defs" then object_definitions v fields else rest

    object_definitions : Value → List Field → List Field
    object_definitions (object ds) fields = named_definitions ds fields
    object_definitions (array vs) fields = fields
    object_definitions null fields = fields
    object_definitions (boolean b) fields = fields
    object_definitions (number n) fields = fields
    object_definitions (string t) fields = fields

    named_definitions : Members → List Field → List Field
    named_definitions end fields = fields
    named_definitions (member name schema ds) fields =
        named_definitions ds (collect_fields name schema fields)

unfoldable pub field_owner : Field → Text
field_owner f =
    if f.root_type == codes "Observation"
      || f.root_type == codes "DecisionReceipt"
      || f.root_type == codes "ProposalResponse"
    then codes "nautilus_trader"
    else if f.root_type == codes "LiveProposalRequest"
    then codes "caller"
    else if f.root_type == codes "AgentTrace"
    then codes "agent"
    else codes "shared"

unfoldable pub field_retention : Field → Text
field_retention f =
    if f.root_type == codes "Observation"
    then codes "declared_by_observation"
    else if f.root_type == codes "AgentTrace"
    then codes "agent_trace"
    else codes "reference_only"

unfoldable pub field_digest_covered : Field → Bool
field_digest_covered f =
    if f.root_type == codes "Observation"
    then not (f.container == codes "Observation" && f.name == codes "digest")
    else f.root_type == codes "LiveProposalRequest" || f.root_type == codes "AgentTrace"
