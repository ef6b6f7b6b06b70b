-- ===== src/Prelude/Keys.antt =====
-- Keys that `==` compares, and a hash map as an association list.
use Prim.Native.Nat.{ℕ}
use Prim.Native.String.{String}
use mathlib.Core.Path.{◌≡◌, refl}
use mathlib.Core.Logic.{◌↔◌}
use mathlib.Core.Bool.{Bool, true}
use mathlib.Core.Option.{Option, none, some}
use mathlib.Core.List.{List, [], ◌∷◌}
use text.Mathlib.Text.{◌==◌ as str_eq}
use text.Mathlib.TextEquality.{eq_iff}
use rxgraph.Prelude.Tests.{◌==◌ as nat_beq, ==_iff, if◌then◌else◌}

pub record Key {ℓ} (K : Type ℓ) : Type ℓ where
  pub beq : K → K → Bool
  pub beq_iff : (a b : K) → (beq a b ≡ true) ↔ (a ≡ b)

instance abbrev pub nat_key : Key ℕ
nat_key = record { beq = nat_beq; beq_iff = ==_iff }

instance abbrev pub string_key : Key String
string_key = record { beq = str_eq; beq_iff = eq_iff }

-- The newest entry of a key stands first, and hides the older ones.
abbrev pub HashMap {ℓ κ} : Type ℓ → Type κ → Type (ℓ ⊔ κ)
HashMap K V = List (K × V)

module _ {ℓ κ} {K : Type ℓ} {V : Type κ} ⦃key : Key K⦄ where
  unfoldable pub get : HashMap K V → K → Option V
  get [] k = none
  get ((j, v) ∷ m) k = if key.beq j k then some v else get m k

  -- `insert` gives back the value that it replaces.
  unfoldable pub insert : HashMap K V → K → V → Option V × HashMap K V
  unfolding get
  insert m k v = (get m k, (k, v) ∷ m)

  pub get-insert :
      (m : HashMap K V) (k q : K) (v : V)
      → get (insert m k v).1 q ≡ (if key.beq k q then some v else get m q)
  unfolding get insert
  get-insert m k q v = refl
