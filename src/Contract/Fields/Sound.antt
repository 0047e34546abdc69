-- ===== src/Contract/Fields/Sound.antt =====
-- `collect_fields`, from the collected fields to the relation.
use nautilus_agents.Base.{
  refl, ◌⊎◌, inl, inr, List, IsMember, some, ◌==◌, list_eq, nat_eq, Bool-cases,
}
use nautilus_agents.Base.{insert_ordered-IsMember}
use nautilus_agents.Text.{Text, codes}
use nautilus_agents.Contract.Json.{
  Value, Values, Members, null, boolean, number, string, array, object, nil, cons, end, member, get,
}
use nautilus_agents.Contract.Fields.{
  Field, field_order, title, required_names, is_collected, collect_fields, collect_values,
  collect_members, collect_properties, object_properties, insert_properties, collect_definitions,
  object_definitions, named_definitions,
}
use nautilus_agents.Contract.Fields.Occurs.{
  Declares, property, in_property, in_definition, in_member, in_element, InValues, InMembers,
  InProperties, InDefinitions, Within,
}

module _ (root : Text) where
  mutual
    unfolding collect_fields

    pub fields_sound :
        (c : Text) (v : Value) (fs : List Field) (f : Field)
        → IsMember f (collect_fields root c v fs)
        → IsMember f fs ⊎ Declares root c v f
    fields_sound c (object ms) fs f m = elim (members_sound (title ms c) ms _ f m) [
      | inr (k, v, h, e, d) ↦ inr (in_member k v h e d)
      | inl m1 ↦ elim (definitions_sound ms _ f m1) [
        | inr (ds, e, (n, s, h, d)) ↦ inr (in_definition ds n s e h d)
        | inl m2 ↦ elim (properties_sound (title ms c) (required_names ms) ms fs f m2) [
          | inl m3 ↦ inl m3
          | inr (ps, e, (n, s, h, inl q)) ↦ inr (property ps n s e h q)
          | inr (ps, e, (n, s, h, inr d)) ↦ inr (in_property ps n s e h d)
        ]
      ]
    ]
    fields_sound c (array vs) fs f m = elim (values_sound c vs fs f m) [
      | inl m1 ↦ inl m1
      | inr (v, h, d) ↦ inr (in_element v h d)
    ]
    fields_sound c null fs f m = inl m
    fields_sound c (boolean b) fs f m = inl m
    fields_sound c (number n) fs f m = inl m
    fields_sound c (string t) fs f m = inl m

    values_sound :
        (c : Text) (vs : Values) (fs : List Field) (f : Field)
        → IsMember f (collect_values root c vs fs)
        → IsMember f fs ⊎ InValues root c f vs
    values_sound c nil fs f m = inl m
    values_sound c (cons v vs) fs f m = elim (values_sound c vs _ f m) [
      | inr (w, h, d) ↦ inr (w, inr h, d)
      | inl m1 ↦ elim (fields_sound c v fs f m1) [ inl m2 ↦ inl m2 | inr d ↦ inr (v, inl refl, d) ]
    ]

    members_sound :
        (c : Text) (ms : Members) (fs : List Field) (f : Field)
        → IsMember f (collect_members root c ms fs)
        → IsMember f fs ⊎ InMembers root c f ms
    members_sound c end fs f m = inl m
    members_sound c (member k v ms) fs f m = elim (members_sound c ms _ f m) [
      | inr (j, w, h, e, d) ↦ inr (j, w, inr h, e, d)
      | inl m1 ↦ elim (Bool-cases (is_collected k)) [
        | inl e ↦ inl (rw e at m1)
        | inr e ↦ elim (fields_sound c v fs f (rw e at m1)) [
          | inl m2 ↦ inl m2
          | inr d ↦ inr (k, v, inl (refl, refl), e, d)
        ]
      ]
    ]

    properties_sound :
        (c : Text) (req : List Text) (ms : Members) (fs : List Field) (f : Field)
        → IsMember f (collect_properties root c req ms fs)
        → IsMember f fs ⊎ Within root (InProperties root c req f) (get (codes "properties") ms)
    properties_sound c req end fs f m = inl m
    properties_sound c req (member k v ms) fs f m = elim (Bool-cases (k == codes "properties")) [
      | inl e ↦ rw e (object_properties_sound c req v fs f (rw e at m))
      | inr e ↦ rw e (properties_sound c req ms fs f (rw e at m))
    ]

    object_properties_sound :
        (c : Text) (req : List Text) (v : Value) (fs : List Field) (f : Field)
        → IsMember f (object_properties root c req v fs)
        → IsMember f fs ⊎ Within root (InProperties root c req f) (some v)
    object_properties_sound c req (object ps) fs f m = elim (insert_sound c req ps fs f m) [
      | inl m1 ↦ inl m1
      | inr h ↦ inr (ps, refl, h)
    ]
    object_properties_sound c req (array vs) fs f m = inl m
    object_properties_sound c req null fs f m = inl m
    object_properties_sound c req (boolean b) fs f m = inl m
    object_properties_sound c req (number n) fs f m = inl m
    object_properties_sound c req (string t) fs f m = inl m

    insert_sound :
        (c : Text) (req : List Text) (ps : Members) (fs : List Field) (f : Field)
        → IsMember f (insert_properties root c req ps fs)
        → IsMember f fs ⊎ InProperties root c req f ps
    insert_sound c req end fs f m = inl m
    insert_sound c req (member n s ps) fs f m = elim (insert_sound c req ps _ f m) [
      | inr (j, w, h, d) ↦ inr (j, w, inr h, d)
      | inl m1 ↦ elim (fields_sound c s _ f m1) [
        | inr d ↦ inr (n, s, inl (refl, refl), inr d)
        | inl m2 ↦ elim ((insert_ordered-IsMember f _ fs).0 m2) [
          | inl e ↦ inr (n, s, inl (refl, refl), inl e)
          | inr m3 ↦ inl m3
        ]
      ]
    ]

    definitions_sound :
        (ms : Members) (fs : List Field) (f : Field)
        → IsMember f (collect_definitions root ms fs)
        → IsMember f fs ⊎ Within root (InDefinitions root f) (get (codes "$defs") ms)
    definitions_sound end fs f m = inl m
    definitions_sound (member k v ms) fs f m = elim (Bool-cases (k == codes "$defs")) [
      | inl e ↦ rw e (object_definitions_sound v fs f (rw e at m))
      | inr e ↦ rw e (definitions_sound ms fs f (rw e at m))
    ]

    object_definitions_sound :
        (v : Value) (fs : List Field) (f : Field)
        → IsMember f (object_definitions root v fs)
        → IsMember f fs ⊎ Within root (InDefinitions root f) (some v)
    object_definitions_sound (object ds) fs f m = elim (named_sound ds fs f m) [
      | inl m1 ↦ inl m1
      | inr h ↦ inr (ds, refl, h)
    ]
    object_definitions_sound (array vs) fs f m = inl m
    object_definitions_sound null fs f m = inl m
    object_definitions_sound (boolean b) fs f m = inl m
    object_definitions_sound (number n) fs f m = inl m
    object_definitions_sound (string t) fs f m = inl m

    named_sound :
        (ds : Members) (fs : List Field) (f : Field)
        → IsMember f (named_definitions root ds fs)
        → IsMember f fs ⊎ InDefinitions root f ds
    named_sound end fs f m = inl m
    named_sound (member n s ds) fs f m = elim (named_sound ds _ f m) [
      | inr (j, w, h, d) ↦ inr (j, w, inr h, d)
      | inl m1 ↦ elim (fields_sound n s fs f m1) [
        | inl m2 ↦ inl m2
        | inr d ↦ inr (n, s, inl (refl, refl), d)
      ]
    ]
