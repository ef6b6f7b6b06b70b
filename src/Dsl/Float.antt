-- ===== src/Dsl/Float.antt =====
-- `f64`, and the text forms that Rust's formatting and serde_json give, as an interface: IEEE
-- arithmetic is not modelled, nor is the standard library's selection. The laws are those of `PartialEq` and `PartialOrd` on `f64`.
use Prim.Native.Nat.{Ordering}
use Prim.Native.String.{String}
use rxgraph.Prelude.{ℕ, ◌≡◌, ◌==◌, if◌then◌else◌, Bool, false, Option, none, some, List}
use rxgraph.Dsl.Integer.{ℤ, pos}

-- `Ordering::reverse`.
abbrev pub flip : Ordering → Ordering
flip Ordering.lt = Ordering.gt
flip Ordering.eq = Ordering.eq
flip Ordering.gt = Ordering.lt

abbrev pub flip_option : Option Ordering → Option Ordering
flip_option none = none
flip_option (some o) = some (flip o)

-- serde_json's values. An object holds the pairs that it is collected from.
mutual
  pub data Json (F : Type 0) : Type 0 where
    json_null : Json F
    json_bool : Bool → Json F
    json_int : ℤ → Json F
    json_float : F → Json F
    json_string : String → Json F
    json_array : Jsons F → Json F
    json_object : Members F → Json F

  pub data Jsons (F : Type 0) : Type 0 where
    no_jsons : Jsons F
    json : Json F → Jsons F → Jsons F

  pub data Members (F : Type 0) : Type 0 where
    no_members : Members F
    member : String → Json F → Members F → Members F

pub record Float (F : Type 0) : Type 1 where
  pub of_int : ℤ → F
  pub feq : F → F → Bool
  pub partial_cmp : F → F → Option Ordering
  pub add : F → F → F
  pub sub : F → F → F
  pub mul : F → F → F
  pub div : F → F → F
  pub is_nan : F → Bool
  pub to_bits : F → ℕ
  pub show_int : ℤ → String
  pub show : F → String
  pub show_json : Json F → String
  pub is_finite : F → Bool
  -- The order that `select_nth_unstable_by` leaves values in.
  pub select_nth : {A : Type 0} → (A → A → Ordering) → ℕ → List A → List A
  pub feq_sym : (a b : F) → feq a b ≡ feq b a
  pub partial_cmp-flip : (a b : F) → partial_cmp b a ≡ flip_option (partial_cmp a b)
  -- Floats that are not NaN are equal exactly if their bits are, once both zeros are one.
  pub to_bits-zero :
      (a b : F)
      → is_nan a ≡ false
      → is_nan b ≡ false
      → (to_bits (if feq a (of_int (pos 0)) then of_int (pos 0) else a)
          == to_bits (if feq b (of_int (pos 0)) then of_int (pos 0) else b))
        ≡ feq a b
