-- ===== src/Traversal/Registry/Lookup.antt =====
-- crates/rxgraph/src/traversal/registry.rs: registration, and the lookups after it.
use Prim.Native.String.{String}
use rxgraph.Prelude.{
  ◌≡◌, ◌≢◌, refl, sym, ◌∙◌, false, inl, inr, some, List, ◌∷◌, Bool-cases, Option-cases,
}
use rxgraph.Prelude.Keys.{HashMap, get, insert, string_key}
use rxgraph.Result.{
  Result, ok, err, panic, out_of_fuel, ◌>>=◌, >>=-elim, ok-injective, already_registered,
}
use rxgraph.Traversal.Registry.{
  MakeFn, KernelEntry, RuntimeRegistry, lock, register_kernel, try_build_kernel, or_unknown,
  build_kernel,
}

done_lem :
    {R : Type 0} (made : Result R) (name : String) (names : List String)
    → ((made >>= λ m. ok (some m)) >>= λ found. or_unknown found name names) ≡ made
unfolding or_unknown
done_lem (ok m) name names = refl
done_lem (err e) name names = refl
done_lem panic name names = refl
done_lem out_of_fuel name names = refl

module _ {J R : Type 0} where
  lock-ok :
      (registry : RuntimeRegistry J R) (entries : HashMap String (MakeFn J R))
      → lock registry ≡ ok entries
      → (registry.poisoned ≡ false) × (registry.entries ≡ entries)
  unfolding lock
  lock-ok registry entries h = elim (Bool-cases registry.poisoned) [
    | inl poisoned ↦ absurd (let broken = rw (lock, poisoned) at h in cc)
    | inr sound ↦ (sound, ok-injective (rw (lock, sound) at h))
  ]

  -- What a registration that succeeds has done.
  register_kernel-ok :
      (registry after : RuntimeRegistry J R) (name : String) (make : MakeFn J R)
      → register_kernel registry name make ≡ ok after
      → (registry.poisoned ≡ false)
        × (after ≡ (record registry { entries = (name, make) ∷ registry.entries }))
  unfolding register_kernel insert
  register_kernel-ok registry after name make h = >>=-elim (lock registry) _ h λ entries a h1.
      let (sound, same) = lock-ok registry entries a in
      elim (Option-cases (get entries name)) [
        | inl fresh ↦ (sound, sym (ok-injective (rw fresh at h1)) ∙ rw same refl)
        | inr taken ↦ let (old, at) = taken in absurd (let refused = rw at at h1 in cc)
      ]

  lock-entries :
      (registry : RuntimeRegistry J R)
      → registry.poisoned ≡ false
      → lock registry ≡ ok registry.entries
  unfolding lock
  lock-entries registry sound = rw sound refl

  get-first :
      (name : String) (make : MakeFn J R) (entries : HashMap String (MakeFn J R))
      → get ((name, make) ∷ entries) name ≡ some make
  unfolding get
  get-first name make entries = rw ((string_key.beq_iff name name).1 refl) refl

  get-later :
      (name other : String) (make : MakeFn J R) (entries : HashMap String (MakeFn J R))
      → other ≢ name
      → get ((name, make) ∷ entries) other ≡ get entries other
  unfolding get
  get-later name other make entries differs = elim (Bool-cases (string_key.beq name other)) [
    | inl equal ↦ absurd (differs (sym ((string_key.beq_iff name other).0 equal)))
    | inr unequal ↦ rw unequal refl
  ]

  -- After a registration that succeeds, whatever kernels are linked, building the registered name
  -- gives what the new factory makes of the parameters, its errors included; every other name is
  -- looked up as before; and registering the name again is an error.
  pub build_kernel-register_kernel :
      (registry after : RuntimeRegistry J R) (name : String) (make : MakeFn J R)
      (linked : List (KernelEntry J R)) (params : J) (other : String)
      → other ≢ name
      → register_kernel registry name make ≡ ok after
      → (build_kernel after linked name params ≡ make params)
        × (try_build_kernel after linked other params
            ≡ try_build_kernel registry linked other params)
        × ((again : MakeFn J R) → register_kernel after name again ≡ err (already_registered name))
  unfolding build_kernel try_build_kernel register_kernel
  build_kernel-register_kernel registry after name make linked params other differs h =
      let (sound, same) = register_kernel-ok registry after name make h in
      let open_before = lock-entries registry sound in
      let open_after = lock-entries after (rw same sound) in
      let own : get after.entries name ≡ some make =
        rw same (get-first name make registry.entries) in
      (
        rw (open_after, ◌>>=◌, own) (done_lem (make params) name _),
        (let old : get after.entries other ≡ get registry.entries other =
              rw same (get-later name other make registry.entries differs) in
            rw (open_after, open_before, ◌>>=◌, old) refl),
        (λ again. rw (open_after, ◌>>=◌, own) refl),
      )
