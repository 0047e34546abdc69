-- ===== src/Contract/Fields/Occurs.antt =====
-- Which fields a schema declares, as a relation on the schema alone.
use nautilus_agents.Base.{◌≡◌, ◌⊎◌, false, List, contains, Option, some, list_eq, nat_eq}
use nautilus_agents.Text.{Text, codes}
use nautilus_agents.Contract.Json.{Value, Values, Members, array, object, get, HasMember, HasValue}
use nautilus_agents.Contract.Fields.{Field, field_order, title, required_names, is_collected}

module _ (root : Text) where
  abbrev pub declared : Text → Members → Text → Field
  declared container ms name = record {
    root_type = root;
    container = title ms container;
    name = name;
    required = contains name (required_names ms);
  }

  -- A schema in a container declares a field: as a property of its own, in the schema of a property,
  -- in a definition, whose name is then the container, in another part of an object, or in an
  -- element of an array. A title renames the container of all but the definitions.
  pub data Declares : Text → Value → Field → Type 0 where
    property :
        {container : Text} {ms : Members} {f : Field} (ps : Members) (name : Text) (schema : Value)
        → get (codes "properties") ms ≡ some (object ps)
        → HasMember name schema ps
        → f ≡ declared container ms name
        → Declares container (object ms) f
    in_property :
        {container : Text} {ms : Members} {f : Field} (ps : Members) (name : Text) (schema : Value)
        → get (codes "properties") ms ≡ some (object ps)
        → HasMember name schema ps
        → Declares (title ms container) schema f
        → Declares container (object ms) f
    in_definition :
        {container : Text} {ms : Members} {f : Field} (ds : Members) (name : Text) (schema : Value)
        → get (codes "$defs") ms ≡ some (object ds)
        → HasMember name schema ds
        → Declares name schema f
        → Declares container (object ms) f
    in_member :
        {container : Text} {ms : Members} {f : Field} (key : Text) (v : Value)
        → HasMember key v ms
        → is_collected key ≡ false
        → Declares (title ms container) v f
        → Declares container (object ms) f
    in_element :
        {container : Text} {vs : Values} {f : Field} (v : Value)
        → HasValue v vs
        → Declares container v f
        → Declares container (array vs) f

  -- The parts of the relation, one for each loop.
  abbrev pub InValues : Text → Field → Values → Type 0
  InValues c f vs = (v : Value) × HasValue v vs × Declares c v f

  abbrev pub InMembers : Text → Field → Members → Type 0
  InMembers c f ms =
      (k : Text) × (v : Value) × HasMember k v ms × (is_collected k ≡ false) × Declares c v f

  abbrev pub AtProperty : Text → List Text → Field → Text → Value → Type 0
  AtProperty c req f name schema =
      (f ≡ record { root_type = root; container = c; name = name; required = contains name req })
      ⊎ Declares c schema f

  abbrev pub InProperties : Text → List Text → Field → Members → Type 0
  InProperties c req f ps =
      (name : Text) × (schema : Value) × HasMember name schema ps × AtProperty c req f name schema

  abbrev pub InDefinitions : Field → Members → Type 0
  InDefinitions f ds =
      (name : Text) × (schema : Value) × HasMember name schema ds × Declares name schema f

  abbrev pub Within : (Members → Type 0) → Option Value → Type 0
  Within P o = (ms : Members) × (o ≡ some (object ms)) × P ms
