-- ===== src/Result/Defs.antt =====
-- Fallible code. `err` is an `anyhow` error, `panic` an index or a slice out of bounds or a failed
-- `expect`, and `out_of_fuel` a loop that was given too few rounds.
use Prim.Native.String.{String}
use rxgraph.Prelude.{ℕ, ◌≡◌, refl, Option, none, some, List, [], ◌∷◌, Bool, true, false}

-- An external identity, borrowed or owned.
pub data GraphId : Type 0 where
  num : ℕ → GraphId
  text : String → GraphId

-- One constructor for each message of `bail!` and `context` in the modelled code, with its values.
pub data Error : Type 0 where
  too_many_edges : ℕ → ℕ → Error
  too_many_ids : Error
  missing_column : String → Error
  bad_id_type : String → Error
  mixed_id_types : String → Error
  type_not_string : Error
  null_node_id null_edge_id null_src null_dest : ℕ → Error
  duplicate_node_id duplicate_edge_id : GraphId → Error
  missing_src missing_dest : ℕ → GraphId → Error
  node_rows edge_rows : ℕ → ℕ → Error
  unknown_node : GraphId → Error
  no_u64_id : Error
  zero_visits zero_batch : Error
  unknown_start : GraphId → Error
  missing_node missing_edge : Error
  kernel_error : ℕ → Error
  not_boolean not_list not_struct not_string incomparable : Error
  not_integer not_number not_unsigned : Error
  missing_argument : ℕ → Error
  not_boolean_item not_string_item bad_separator : Error
  expression_count : ℕ → Error
  missing_struct_argument missing_base_struct : Error
  missing_field_expression : String → Error
  index_out_of_bounds : ℕ → Error
  step_not_positive : Error
  needs_expressions : Error
  no_element : Error
  missing_id : Error
  unsupported_column unsupported_value : String → Error
  empty_literal : Error
  column_count : ℕ → Error
  field_type : String → Error
  negative_value out_of_range lossy_float : Error
  registry_poisoned : Error
  already_registered : String → Error
  unknown_kernel : String → List String → Error
  no_stream_support : Error
  state_not_object : Error
  number_too_big : Error
  value_without_key : Error
  key_not_string key_not_finite : Error
  missing_node_path missing_edge_path : Error
  node_payloads edge_payloads : ℕ → ℕ → Error
  node_row edge_row : ℕ → Error
  payload_table : Error

pub data Result {ℓ} (A : Type ℓ) : Type ℓ where
  ok : A → Result A
  err : Error → Result A
  panic : Result A
  out_of_fuel : Result A

pub ok-injective {ℓ} : {A : Type ℓ} {a b : A} → ok a ≡ ok b → a ≡ b
ok-injective h = cc

infixl 5 ◌>>=◌ ◌>>◌
abbrev pub ◌>>=◌ {ℓ κ} : {A : Type ℓ} {B : Type κ} → Result A → (A → Result B) → Result B
panic >>= next = panic
out_of_fuel >>= next = out_of_fuel
err e >>= next = err e
ok a >>= next = next a

-- `with_context` on an `Option`.
abbrev pub or_err {ℓ} : {A : Type ℓ} → Option A → Error → Result A
or_err none e = err e
or_err (some a) e = ok a

-- `expect` on an `Option`.
abbrev pub or_panic {ℓ} : {A : Type ℓ} → Option A → Result A
or_panic none = panic
or_panic (some a) = ok a

-- `if !test { bail!(…) }`.
abbrev pub guard : (test : Bool) (bail : Error) → Result (Unit {0})
guard false bail = err bail
guard true bail = ok tt

abbrev pub ◌>>◌ {κ} : {A : Type κ} (first : Result (Unit {0})) (rest : Result A) → Result A
first >> rest = first >>= λ done. rest

-- `iter().map(f).collect::<Result<Vec<_>>>()`.
abbrev pub map_result {ℓ κ} : {A : Type ℓ} {B : Type κ} → (A → Result B) → List A → Result (List B)
map_result f [] = ok []
map_result f (x ∷ xs) = do y ← f x; ys ← map_result f xs; ok (y ∷ ys)

-- The code ends normally, in a value that satisfies `P`.
abbrev pub Returns {ℓ κ} : {A : Type ℓ} → Result A → (A → Type κ) → Type (ℓ ⊔ κ)
Returns {A} r P = (a : A) × (r ≡ ok a) × P a

pub Returns-bind {ℓ κ μ ν} :
    {A : Type ℓ} {B : Type κ} {P : A → Type μ} {Q : B → Type ν} (m : Result A) (f : A → Result B)
    → Returns m P
    → ((a : A) → P a → Returns (f a) Q)
    → Returns (m >>= f) Q
Returns-bind m f (a, e, p) k = let (b, e', q) = k a p in (b, rw e e', q)

-- A chain that succeeds has a first step that succeeds, and goes on with its value.
pub >>=-elim {ℓ κ μ} :
    {A : Type ℓ} {B : Type κ} {C : Type μ} (first : Result A) (next : A → Result B) {last : B}
    → (first >>= next) ≡ ok last
    → ((value : A) → first ≡ ok value → next value ≡ ok last → C)
    → C
>>=-elim panic next e k = absurd cc
>>=-elim out_of_fuel next e k = absurd cc
>>=-elim (err bail) next e k = absurd cc
>>=-elim (ok value) next e k = k value refl e

pub >>=-eq-ok {ℓ κ} :
    {A : Type ℓ} {B : Type κ} (first : Result A) (next : A → Result B) {last : B}
    → (first >>= next) ≡ ok last
    → (value : A) × (first ≡ ok value) × (next value ≡ ok last)
>>=-eq-ok first next e = >>=-elim first next e λ value ran rest. (value, ran, rest)
