-- ===== src/Traversal/Encoder/Objects.antt =====
-- crates/rxgraph/src/traversal/state_encoder.rs, `Object`: what stands in the map of an encoded object.
use Prim.Native.Nat.{Ordering}
use Prim.Native.String.{String, compare as compare_str}
use rxgraph.Prelude.{
  ◌≡◌, refl, sym, ap, ◌∙◌, false, Option, none, some, List, [], ◌∷◌, inl, inr, if◌then◌else◌,
  Bool-cases,
}
use rxgraph.Prelude.Keys.{string_key}
use rxgraph.Result.{ok, >>=-elim, ok-injective}
use rxgraph.Dsl.Float.{Float}
use rxgraph.Dsl.Value.{Value, find_field, struct, to_pairs, of_pairs}
use rxgraph.Dsl.Column.Order.{compare_str-flip}
use rxgraph.Traversal.Encoder.{
  Serial, of_struct, Parts, no_parts, part, Object, tree_insert, new_object, finish_object, wrap,
  serialize, fields_of, encode, state_row,
}

module _ {F : Type 0} where
  -- The keys ascend, so that each stands once.
  abbrev pub FirstAbove : String → List (String × Value F) → Type 0
  FirstAbove k [] = Unit
  FirstAbove k ((l, w) ∷ tree) = compare_str k l ≡ Ordering.lt

  abbrev pub IsAscending : List (String × Value F) → Type 0
  IsAscending [] = Unit
  IsAscending ((k, v) ∷ tree) = FirstAbove k tree × IsAscending tree

  find_field-cons :
      (k : String) (w : Value F) (tree : List (String × Value F)) (name : String)
      → find_field ((k, w) ∷ tree) name
        ≡ (if string_key.beq k name then some w else find_field tree name)
  unfolding find_field
  find_field-cons k w tree name = elim (Bool-cases (string_key.beq k name)) [
    | inl here ↦ rw (find_field, here) refl
    | inr there ↦ rw (find_field, there) refl
  ]

  replaced :
      (k : String) (w : Value F) (tree : List (String × Value F)) (v : Value F) (name key : String)
      → key ≡ k
      → (if string_key.beq k name then some v else find_field tree name)
        ≡ (if string_key.beq key name then some v else find_field ((k, w) ∷ tree) name)
  replaced k w tree v name key same = elim (Bool-cases (string_key.beq k name)) [
    | inl here ↦ rw (same, here) refl
    | inr there ↦ rw (same, there, find_field-cons k w tree name, there) refl
  ]

  passed :
      (k : String) (w : Value F) (tree : List (String × Value F)) (key : String) (v : Value F)
      (name : String) (found : Option (Value F))
      → string_key.beq key k ≡ false
      → found ≡ (if string_key.beq key name then some v else find_field tree name)
      → (if string_key.beq k name then some w else found)
        ≡ (if string_key.beq key name then some v else find_field ((k, w) ∷ tree) name)
  passed k w tree key v name found apart rest = elim (Bool-cases (string_key.beq k name)) [
    | inl here ↦
        let same : k ≡ name = (string_key.beq_iff k name).0 here in
        let away : string_key.beq key name ≡ false = rw (← same) apart in
        rw (here, away, find_field-cons k w tree name, here) refl
    | inr there ↦ rw (there, find_field-cons k w tree name, there) rest
  ]

  -- The value is found at its key, and the other keys keep theirs.
  find_field-tree_insert :
      (tree : List (String × Value F)) (key : String) (v : Value F) (name : String)
      → find_field (tree_insert tree key v) name
        ≡ (if string_key.beq key name then some v else find_field tree name)
  unfolding tree_insert
  find_field-tree_insert [] key v name = find_field-cons key v [] name
  find_field-tree_insert ((k, w) ∷ tree) key v name =
      placed (compare_str key k) refl (find_field-tree_insert tree key v name)
    where
      placed :
          (o : Ordering)
          → compare_str key k ≡ o
          → (find_field (tree_insert tree key v) name
              ≡ (if string_key.beq key name then some v else find_field tree name))
          → find_field (tree_insert ((k, w) ∷ tree) key v) name
            ≡ (if string_key.beq key name then some v else find_field ((k, w) ∷ tree) name)
      placed Ordering.lt e rest = rw (tree_insert, e) (find_field-cons key v ((k, w) ∷ tree) name)
      placed Ordering.eq e rest =
          let same : key ≡ k = (string_key.beq_iff key k).0 (rw e refl) in
          rw (tree_insert, e) (find_field-cons k v tree name ∙ replaced k w tree v name key same)
      placed Ordering.gt e rest =
          rw (tree_insert, e)
            (find_field-cons k w (tree_insert tree key v) name
              ∙ passed k w tree key v name _ (rw e refl) rest)

  tree_insert-FirstAbove :
      (k : String) (tree : List (String × Value F)) (key : String) (v : Value F)
      → compare_str k key ≡ Ordering.lt
      → FirstAbove k tree
      → FirstAbove k (tree_insert tree key v)
  unfolding tree_insert
  tree_insert-FirstAbove k [] key v above first = above
  tree_insert-FirstAbove k ((l, w) ∷ tree) key v above first = placed (compare_str key l) refl
    where
      placed :
          (o : Ordering) → compare_str key l ≡ o → FirstAbove k (tree_insert ((l, w) ∷ tree) key v)
      placed Ordering.lt e = rw (tree_insert, e) above
      placed Ordering.eq e = rw (tree_insert, e) first
      placed Ordering.gt e = rw (tree_insert, e) first

  tree_insert-IsAscending :
      (tree : List (String × Value F)) (key : String) (v : Value F)
      → IsAscending tree
      → IsAscending (tree_insert tree key v)
  unfolding tree_insert
  tree_insert-IsAscending [] key v p = (tt, tt)
  tree_insert-IsAscending ((k, w) ∷ tree) key v p =
      placed (compare_str key k) refl (tree_insert-IsAscending tree key v p.1)
    where
      placed :
          (o : Ordering)
          → compare_str key k ≡ o
          → IsAscending (tree_insert tree key v)
          → IsAscending (tree_insert ((k, w) ∷ tree) key v)
      placed Ordering.lt e rest = rw (tree_insert, e) (e, p)
      placed Ordering.eq e rest = rw (tree_insert, e) p
      placed Ordering.gt e rest =
          let after : compare_str k key ≡ Ordering.lt = rw (compare_str-flip key k, e) refl in
          rw (tree_insert, e) (tree_insert-FirstAbove k tree key v after p.0, rest)

  to_pairs-of_pairs : (pairs : List (String × Value F)) → to_pairs (of_pairs pairs) ≡ pairs
  unfolding to_pairs of_pairs
  to_pairs-of_pairs [] = refl
  to_pairs-of_pairs ((name, v) ∷ pairs) = ap (λ rest. (name, v) ∷ rest) (to_pairs-of_pairs pairs)

  -- The last part of a name.
  abbrev pub last_part : Parts F → String → Option (Serial F)
  last_part no_parts name = none
  last_part (part key v parts) name =
      let rest = last_part parts name in
      elim rest [
        | some later ↦ some later
        | none ↦ if string_key.beq key name then some v else none
      ]

module _ {F : Type 0} ⦃float : Float F⦄ (f32_text : F → String) where
  -- A value that serializes to what is found, or else what was there before.
  abbrev pub IsFound : Option (Serial F) → Option (Value F) → Option (Value F) → Type 0
  IsFound none before found = found ≡ before
  IsFound (some v) before found = (w : Value F) × (serialize f32_text v ≡ ok w) × (found ≡ some w)

  -- What later parts leave of an insertion.
  extend-IsFound :
      (key : String) (v : Serial F) (w : Value F) (name : String) (later : Option (Serial F))
      (before found middle : Option (Value F))
      → serialize f32_text v ≡ ok w
      → middle ≡ (if string_key.beq key name then some w else before)
      → IsFound later middle found
      → IsFound
          (elim later [ some s ↦ some s | none ↦ if string_key.beq key name then some v else none ])
          before
          found
  extend-IsFound key v w name (some s) before found middle a step h = h
  extend-IsFound key v w name none before found middle a step h =
      elim (Bool-cases (string_key.beq key name)) [
        | inl here ↦ rw here (w, a, h ∙ step ∙ rw here refl)
        | inr there ↦ rw there (h ∙ step ∙ rw there refl)
      ]

  fields_of_lem :
      (parts : Parts F) (object after : Object F)
      → fields_of f32_text parts object ≡ ok after
      → IsAscending object.values
      → (after.variant ≡ object.variant)
        × IsAscending after.values
        × ((name : String)
            → IsFound
                (last_part parts name)
                (find_field object.values name)
                (find_field after.values name))
  unfolding fields_of
  fields_of_lem no_parts object after h p =
      let same = ok-injective h in rw (← same) (refl, p, (λ name. refl))
  fields_of_lem (part key v parts) object after h p = >>=-elim (serialize f32_text v) _ h λ w a h1.
      let tree = tree_insert object.values key w in
      let next : Object F = record object { values = tree } in
      let (same, ascends, found) =
        fields_of_lem parts next after h1 (tree_insert-IsAscending object.values key w p) in
      (
        same,
        ascends,
        (λ name.
            extend-IsFound key v w name (last_part parts name) (find_field object.values name)
              (find_field after.values name) (find_field tree name) a
              (find_field-tree_insert object.values key w name) (found name)),
      )

  -- Whatever an encoded struct holds: its fields stand in the order of their names, each name once,
  -- and a name is found exactly if the struct has a part of that name, with the encoding of the last
  -- such part.
  pub encode-of_struct :
      (parts : Parts F) (fields : List (String × Value F))
      → encode f32_text (of_struct parts) ≡ ok fields
      → IsAscending fields
        × ((name : String) → IsFound (last_part parts name) none (find_field fields name))
  unfolding encode serialize finish_object new_object wrap state_row find_field
  encode-of_struct parts fields h = >>=-elim (serialize f32_text (of_struct parts)) _ h λ v a h1.
      >>=-elim (fields_of f32_text parts (new_object none)) _ a λ after b h2.
        let (same, ascends, found) = fields_of_lem parts (new_object none) after b tt in
        let made : struct (of_pairs after.values) ≡ v =
          ap (λ variant. wrap variant (struct (of_pairs after.values))) (sym same)
          ∙ ok-injective h2 in
        let whole : after.values ≡ fields =
          sym (to_pairs-of_pairs after.values) ∙ ok-injective (rw (← made) at h1) in
        rw (← whole) (ascends, found)
