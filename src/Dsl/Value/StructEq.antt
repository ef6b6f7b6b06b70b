-- ===== src/Dsl/Value/StructEq.antt =====
-- crates/rxgraph/src/dsl/value.rs: the lookup of fields by `struct_fields_eq`.
use Prim.Native.String.{String}
use rxgraph.Prelude.{
  ◌≡◌, refl, ◌∙◌, ap, ◌⊎◌, true, false, inl, inr, Option, none, some, List, [], ◌∷◌, ltb, length,
  Bool-cases, Option-cases,
}
use rxgraph.Prelude.Keys.{HashMap, get, string_key, get-insert}
use rxgraph.Dsl.Value.{Value, find_field, entry_or_insert, index_by_name, field_lookup}

module _ {F : Type 0} where
  -- The entry that is there first stays.
  first_of : Option (Value F) → Option (Value F) → Option (Value F)
  first_of (some v) w = some v
  first_of none w = w

  get-entry_or_insert :
      (m : HashMap String (Value F)) (name q : String) (v : Value F)
      → get (entry_or_insert m name v) q
        ≡ first_of (get m q) (elim (string_key.beq name q) [ true ↦ some v | false ↦ none ])
  unfolding entry_or_insert first_of
  get-entry_or_insert m name q v = elim (Option-cases (get m name)) [
    | inl new ↦ elim (Bool-cases (string_key.beq name q)) [
      | inl same ↦
          let e : name ≡ q = (string_key.beq_iff name q).0 same in
          let absent : get m q ≡ none = cc in
          rw (entry_or_insert, new, get-insert m name q v, same, absent) refl
      | inr other ↦ rw (entry_or_insert, new, get-insert m name q v, other) (keep (get m q))
    ]
    | inr old ↦
        let (w, found) = old in
        elim (Bool-cases (string_key.beq name q)) [
          | inl same ↦
              let e : name ≡ q = (string_key.beq_iff name q).0 same in
              let there : get m q ≡ some w = cc in rw (entry_or_insert, found, there) refl
          | inr other ↦ rw (entry_or_insert, found, other) (keep (get m q))
        ]
  ]
    where
      keep : (o : Option (Value F)) → o ≡ first_of o none
      keep none = refl
      keep (some x) = refl

  get-index_by_name :
      (fields : List (String × Value F)) (m : HashMap String (Value F)) (q : String)
      → get (index_by_name fields m) q ≡ first_of (get m q) (find_field fields q)
  unfolding index_by_name find_field first_of
  get-index_by_name [] m q = elim (Option-cases (get m q)) [
    | inl absent ↦ rw absent refl
    | inr present ↦ let (v, found) = present in rw found refl
  ]
  get-index_by_name ((name, v) ∷ fields) m q =
      get-index_by_name fields (entry_or_insert m name v) q
      ∙ ap (λ o. first_of o (find_field fields q)) (get-entry_or_insert m name q v)
      ∙ merge (get m q) (Bool-cases (string_key.beq name q))
    where
      merge :
          (o : Option (Value F))
          → (string_key.beq name q ≡ true) ⊎ (string_key.beq name q ≡ false)
          → first_of
              (first_of o (elim (string_key.beq name q) [ true ↦ some v | false ↦ none ]))
              (find_field fields q)
            ≡ first_of o (find_field ((name, v) ∷ fields) q)
      merge (some x) c = refl
      merge none (inl same) = rw (find_field, same) refl
      merge none (inr other) = rw (find_field, other) refl

  -- Whatever the number of fields, a field is looked up as the first one of its name.
  pub field_lookup_lem :
      (right : List (String × Value F)) (name : String)
      → field_lookup right name ≡ find_field right name
  unfolding field_lookup first_of get
  field_lookup_lem right name = elim (Bool-cases (ltb (length right) 8)) [
    | inl short ↦ rw (field_lookup, short) refl
    | inr long ↦ rw (field_lookup, long) (get-index_by_name right [] name)
  ]
