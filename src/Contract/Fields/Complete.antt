-- ===== src/Contract/Fields/Complete.antt =====
-- `collect_fields`, from the relation to the collected fields.
use nautilus_agents.Base.{
  ◌≡◌, sym, subst, ◌⊎◌, inl, inr, false, List, IsMember, Option, some, ◌==◌, list_eq, nat_eq,
  Bool-cases,
}
use nautilus_agents.Base.{insert_ordered-IsMember}
use nautilus_agents.Text.{Text, codes}
use nautilus_agents.Contract.Json.{
  Value, Values, Members, null, boolean, number, string, array, object, nil, cons, end, member, get,
}
use nautilus_agents.Contract.Fields.{
  Field, field_order, title, required_names, is_collected, collect_fields, collect_values,
  collect_members, collect_properties, object_properties, insert_properties, collect_definitions,
  object_definitions, named_definitions,
}
use nautilus_agents.Contract.Fields.Occurs.{
  Declares, property, in_property, in_definition, in_member, in_element, InValues, InMembers,
  AtProperty, InProperties, InDefinitions, Within,
}

module _ (root : Text) where
  object_injective :
      (ps qs : Members) → Path (Option Value) (some (object ps)) (some (object qs)) → ps ≡ qs
  object_injective ps qs e = cc

  at_entry : (P : Text → Value → Type 0) {n j : Text} {s w : Value} → n ≡ j → s ≡ w → P n s → P j w
  at_entry P {j = j} {s = s} e e' h = subst (λ v. P j v) e' (subst (λ k. P k s) e h)

  mutual
    unfolding collect_fields

    pub fields_complete :
        (c : Text) (v : Value) (fs : List Field) (f : Field)
        → IsMember f fs ⊎ Declares root c v f
        → IsMember f (collect_fields root c v fs)
    fields_complete c (object ms) fs f (inl m) = members_complete (title ms c) ms _ f (
        inl (
          definitions_complete ms _ f
            (inl (properties_complete (title ms c) (required_names ms) ms fs f (inl m)))))
    fields_complete c (object ms) fs f (inr (property ps n s e h q)) =
        members_complete (title ms c) ms _ f (
          inl (
            definitions_complete ms _ f (
              inl (
                properties_complete (title ms c) (required_names ms) ms fs f
                  (inr (ps, e, (n, s, h, inl q)))))))
    fields_complete c (object ms) fs f (inr (in_property ps n s e h d)) =
        members_complete (title ms c) ms _ f (
          inl (
            definitions_complete ms _ f (
              inl (
                properties_complete (title ms c) (required_names ms) ms fs f
                  (inr (ps, e, (n, s, h, inr d)))))))
    fields_complete c (object ms) fs f (inr (in_definition ds n s e h d)) =
        members_complete (title ms c) ms _ f
          (inl (definitions_complete ms _ f (inr (ds, e, (n, s, h, d)))))
    fields_complete c (object ms) fs f (inr (in_member k v h e d)) =
        members_complete (title ms c) ms _ f (inr (k, v, h, e, d))
    fields_complete c (array vs) fs f (inl m) = values_complete c vs fs f (inl m)
    fields_complete c (array vs) fs f (inr (in_element v h d)) =
        values_complete c vs fs f (inr (v, h, d))
    fields_complete c null fs f (inl m) = m
    fields_complete c null fs f (inr d) = elim d [ ]
    fields_complete c (boolean b) fs f (inl m) = m
    fields_complete c (boolean b) fs f (inr d) = elim d [ ]
    fields_complete c (number n) fs f (inl m) = m
    fields_complete c (number n) fs f (inr d) = elim d [ ]
    fields_complete c (string t) fs f (inl m) = m
    fields_complete c (string t) fs f (inr d) = elim d [ ]

    values_complete :
        (c : Text) (vs : Values) (fs : List Field) (f : Field)
        → IsMember f fs ⊎ InValues root c f vs
        → IsMember f (collect_values root c vs fs)
    values_complete c nil fs f (inl m) = m
    values_complete c nil fs f (inr (v, h, d)) = absurd h
    values_complete c (cons v vs) fs f (inl m) =
        values_complete c vs _ f (inl (fields_complete c v fs f (inl m)))
    values_complete c (cons v vs) fs f (inr (w, inl e, d)) =
        values_complete c vs _ f
          (inl (fields_complete c v fs f (inr (subst (λ x. Declares root c x f) e d))))
    values_complete c (cons v vs) fs f (inr (w, inr h, d)) =
        values_complete c vs _ f (inr (w, h, d))

    members_complete :
        (c : Text) (ms : Members) (fs : List Field) (f : Field)
        → IsMember f fs ⊎ InMembers root c f ms
        → IsMember f (collect_members root c ms fs)
    members_complete c end fs f (inl m) = m
    members_complete c end fs f (inr (k, v, h, e, d)) = absurd h
    members_complete c (member k v ms) fs f (inl m) = members_complete c ms _ f (
        inl (elim (Bool-cases (is_collected k)) [
          | inl e ↦ rw e m
          | inr e ↦ rw e (fields_complete c v fs f (inl m))
        ]))
    members_complete c (member k v ms) fs f (inr (j, w, inl (e, e'), q, d)) =
        let q' = subst (λ x. is_collected x ≡ false) e q in
        members_complete c ms _ f
          (inl (rw q' (fields_complete c v fs f (inr (subst (λ x. Declares root c x f) e' d)))))
    members_complete c (member k v ms) fs f (inr (j, w, inr h, q, d)) =
        members_complete c ms _ f (inr (j, w, h, q, d))

    properties_complete :
        (c : Text) (req : List Text) (ms : Members) (fs : List Field) (f : Field)
        → IsMember f fs ⊎ Within root (InProperties root c req f) (get (codes "properties") ms)
        → IsMember f (collect_properties root c req ms fs)
    properties_complete c req end fs f (inl m) = m
    properties_complete c req end fs f (inr (ps, e, h)) = absurd cc
    properties_complete c req (member k v ms) fs f d = elim (Bool-cases (k == codes "properties")) [
      | inl e ↦ rw e (object_properties_complete c req v fs f (rw e at d))
      | inr e ↦ rw e (properties_complete c req ms fs f (rw e at d))
    ]

    object_properties_complete :
        (c : Text) (req : List Text) (v : Value) (fs : List Field) (f : Field)
        → IsMember f fs ⊎ Within root (InProperties root c req f) (some v)
        → IsMember f (object_properties root c req v fs)
    object_properties_complete c req (object ps) fs f (inl m) =
        insert_complete c req ps fs f (inl m)
    object_properties_complete c req (object ps) fs f (inr (qs, e, h)) =
        insert_complete c req ps fs f
          (inr (subst (InProperties root c req f) (sym (object_injective ps qs e)) h))
    object_properties_complete c req (array vs) fs f (inl m) = m
    object_properties_complete c req (array vs) fs f (inr (qs, e, h)) = absurd cc
    object_properties_complete c req null fs f (inl m) = m
    object_properties_complete c req null fs f (inr (qs, e, h)) = absurd cc
    object_properties_complete c req (boolean b) fs f (inl m) = m
    object_properties_complete c req (boolean b) fs f (inr (qs, e, h)) = absurd cc
    object_properties_complete c req (number n) fs f (inl m) = m
    object_properties_complete c req (number n) fs f (inr (qs, e, h)) = absurd cc
    object_properties_complete c req (string t) fs f (inl m) = m
    object_properties_complete c req (string t) fs f (inr (qs, e, h)) = absurd cc

    insert_complete :
        (c : Text) (req : List Text) (ps : Members) (fs : List Field) (f : Field)
        → IsMember f fs ⊎ InProperties root c req f ps
        → IsMember f (insert_properties root c req ps fs)
    insert_complete c req end fs f (inl m) = m
    insert_complete c req end fs f (inr (n, s, h, d)) = absurd h
    insert_complete c req (member n s ps) fs f (inl m) =
        insert_complete c req ps _ f
          (inl (fields_complete c s _ f (inl ((insert_ordered-IsMember f _ fs).1 (inr m)))))
    insert_complete c req (member n s ps) fs f (inr (j, w, inl (e, e'), d)) =
        insert_complete c req ps _ f (
          inl (elim (at_entry (AtProperty root c req f) e e' d) [
            | inl q ↦ fields_complete c s _ f (inl ((insert_ordered-IsMember f _ fs).1 (inl q)))
            | inr d' ↦ fields_complete c s _ f (inr d')
          ]))
    insert_complete c req (member n s ps) fs f (inr (j, w, inr h, d)) =
        insert_complete c req ps _ f (inr (j, w, h, d))

    definitions_complete :
        (ms : Members) (fs : List Field) (f : Field)
        → IsMember f fs ⊎ Within root (InDefinitions root f) (get (codes "$defs") ms)
        → IsMember f (collect_definitions root ms fs)
    definitions_complete end fs f (inl m) = m
    definitions_complete end fs f (inr (ds, e, h)) = absurd cc
    definitions_complete (member k v ms) fs f d = elim (Bool-cases (k == codes "$defs")) [
      | inl e ↦ rw e (object_definitions_complete v fs f (rw e at d))
      | inr e ↦ rw e (definitions_complete ms fs f (rw e at d))
    ]

    object_definitions_complete :
        (v : Value) (fs : List Field) (f : Field)
        → IsMember f fs ⊎ Within root (InDefinitions root f) (some v)
        → IsMember f (object_definitions root v fs)
    object_definitions_complete (object ds) fs f (inl m) = named_complete ds fs f (inl m)
    object_definitions_complete (object ds) fs f (inr (qs, e, h)) =
        named_complete ds fs f
          (inr (subst (InDefinitions root f) (sym (object_injective ds qs e)) h))
    object_definitions_complete (array vs) fs f (inl m) = m
    object_definitions_complete (array vs) fs f (inr (qs, e, h)) = absurd cc
    object_definitions_complete null fs f (inl m) = m
    object_definitions_complete null fs f (inr (qs, e, h)) = absurd cc
    object_definitions_complete (boolean b) fs f (inl m) = m
    object_definitions_complete (boolean b) fs f (inr (qs, e, h)) = absurd cc
    object_definitions_complete (number n) fs f (inl m) = m
    object_definitions_complete (number n) fs f (inr (qs, e, h)) = absurd cc
    object_definitions_complete (string t) fs f (inl m) = m
    object_definitions_complete (string t) fs f (inr (qs, e, h)) = absurd cc

    named_complete :
        (ds : Members) (fs : List Field) (f : Field)
        → IsMember f fs ⊎ InDefinitions root f ds
        → IsMember f (named_definitions root ds fs)
    named_complete end fs f (inl m) = m
    named_complete end fs f (inr (n, s, h, d)) = absurd h
    named_complete (member n s ds) fs f (inl m) =
        named_complete ds _ f (inl (fields_complete n s fs f (inl m)))
    named_complete (member n s ds) fs f (inr (j, w, inl (e, e'), d)) =
        named_complete ds _ f
          (inl (fields_complete n s fs f (inr (at_entry (λ k x. Declares root k x f) e e' d))))
    named_complete (member n s ds) fs f (inr (j, w, inr h, d)) =
        named_complete ds _ f (inr (j, w, h, d))
