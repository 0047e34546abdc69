-- ===== src/Contract/Fields/Collected.antt =====
-- `collect_fields` against the relation, and what its insertions keep.
use nautilus_agents.Base.{◌↔◌, ◌⊎◌, inl, inr, List, IsMember, Bool-cases, ◌==◌, list_eq, nat_eq}
use nautilus_agents.Base.{insert_ordered, insert_ordered-IsSorted, IsSorted}
use nautilus_agents.Text.{Text, codes}
use nautilus_agents.Contract.Json.{
  Value, Values, Members, null, boolean, number, string, array, object, nil, cons, end, member,
}
use nautilus_agents.Contract.Fields.{
  Field, field_order, title, required_names, is_collected, collect_fields, collect_values,
  collect_members, collect_properties, object_properties, insert_properties, collect_definitions,
  object_definitions, named_definitions,
}
use nautilus_agents.Contract.Fields.Occurs.{Declares}
use nautilus_agents.Contract.Fields.Sound.{fields_sound}
use nautilus_agents.Contract.Fields.Complete.{fields_complete}

-- After a schema, the set holds a field exactly where it held it before or the schema declares it.
pub collect_fields-IsMember :
    (root container : Text) (v : Value) (fields : List Field) (f : Field)
    → IsMember f (collect_fields root container v fields)
      ↔ (IsMember f fields ⊎ Declares root container v f)
collect_fields-IsMember root container v fields f =
    (fields_sound root container v fields f, fields_complete root container v fields f)

-- What every insertion keeps, the collection keeps.
module _ (root : Text) (P : List Field → Type 0)
    (keep : (f : Field) (fs : List Field) → P fs → P (insert_ordered f fs)) where
  mutual
    unfolding collect_fields

    pub collect_fields-keeps :
        (c : Text) (v : Value) (fs : List Field) → P fs → P (collect_fields root c v fs)
    collect_fields-keeps c (object ms) fs p =
        members_keep (title ms c) ms _
          (definitions_keep ms _ (properties_keep (title ms c) (required_names ms) ms fs p))
    collect_fields-keeps c (array vs) fs p = values_keep c vs fs p
    collect_fields-keeps c null fs p = p
    collect_fields-keeps c (boolean b) fs p = p
    collect_fields-keeps c (number n) fs p = p
    collect_fields-keeps c (string t) fs p = p

    values_keep :
        (c : Text) (vs : Values) (fs : List Field) → P fs → P (collect_values root c vs fs)
    values_keep c nil fs p = p
    values_keep c (cons v vs) fs p = values_keep c vs _ (collect_fields-keeps c v fs p)

    members_keep :
        (c : Text) (ms : Members) (fs : List Field) → P fs → P (collect_members root c ms fs)
    members_keep c end fs p = p
    members_keep c (member k v ms) fs p = elim (Bool-cases (is_collected k)) [
      | inl e ↦ rw e (members_keep c ms fs p)
      | inr e ↦ rw e (members_keep c ms _ (collect_fields-keeps c v fs p))
    ]

    properties_keep :
        (c : Text) (req : List Text) (ms : Members) (fs : List Field)
        → P fs
        → P (collect_properties root c req ms fs)
    properties_keep c req end fs p = p
    properties_keep c req (member k v ms) fs p = elim (Bool-cases (k == codes "properties")) [
      | inl e ↦ rw e (object_properties_keep c req v fs p)
      | inr e ↦ rw e (properties_keep c req ms fs p)
    ]

    object_properties_keep :
        (c : Text) (req : List Text) (v : Value) (fs : List Field)
        → P fs
        → P (object_properties root c req v fs)
    object_properties_keep c req (object ps) fs p = insert_keep c req ps fs p
    object_properties_keep c req (array vs) fs p = p
    object_properties_keep c req null fs p = p
    object_properties_keep c req (boolean b) fs p = p
    object_properties_keep c req (number n) fs p = p
    object_properties_keep c req (string t) fs p = p

    insert_keep :
        (c : Text) (req : List Text) (ps : Members) (fs : List Field)
        → P fs
        → P (insert_properties root c req ps fs)
    insert_keep c req end fs p = p
    insert_keep c req (member n s ps) fs p =
        insert_keep c req ps _ (collect_fields-keeps c s _ (keep _ fs p))

    definitions_keep : (ms : Members) (fs : List Field) → P fs → P (collect_definitions root ms fs)
    definitions_keep end fs p = p
    definitions_keep (member k v ms) fs p = elim (Bool-cases (k == codes "$defs")) [
      | inl e ↦ rw e (object_definitions_keep v fs p)
      | inr e ↦ rw e (definitions_keep ms fs p)
    ]

    object_definitions_keep :
        (v : Value) (fs : List Field) → P fs → P (object_definitions root v fs)
    object_definitions_keep (object ds) fs p = named_keep ds fs p
    object_definitions_keep (array vs) fs p = p
    object_definitions_keep null fs p = p
    object_definitions_keep (boolean b) fs p = p
    object_definitions_keep (number n) fs p = p
    object_definitions_keep (string t) fs p = p

    named_keep : (ds : Members) (fs : List Field) → P fs → P (named_definitions root ds fs)
    named_keep end fs p = p
    named_keep (member n s ds) fs p = named_keep ds _ (collect_fields-keeps n s fs p)

pub collect_fields-IsSorted :
    (root container : Text) (v : Value) (fields : List Field)
    → IsSorted fields
    → IsSorted (collect_fields root container v fields)
collect_fields-IsSorted root container v fields s =
    collect_fields-keeps root IsSorted insert_ordered-IsSorted container v fields s
