-- ===== src/Shared/Maps.antt =====
-- `DashMap` and `HashMap` as association lists: lookups, writes, and what each leaves readable.
use mathlib.Core.Bool.{Bool, true}
use mathlib.Core.List.{List, [], ◌∷◌, map, Memᴰ}
use mathlib.Core.Logic.{inl, inr}
use mathlib.Core.Option.{Option, none, some}
use mathlib.Core.Path.{◌≡◌, refl}
use native.Mathlib.Omega.{arith}
use tabbify_service_mesh.Shared.Equality.{PartialEq, ◌==◌, nat_eq, list_eq, option_eq, pair_eq}
use tabbify_service_mesh.Shared.Lists.{any}
use tabbify_service_mesh.Shared.Tests.{if◌then◌else◌, Bool-cases}

abbrev pub map_option {ℓ κ} : {A : Type ℓ} {B : Type κ} → (A → B) → Option A → Option B
map_option f none = none
map_option f (some a) = some (f a)

abbrev pub Dict {ℓ κ} : Type ℓ → Type κ → Type (ℓ ⊔ κ)
Dict K V = List (K × V)

module _ {ℓ κ} {K : Type ℓ} {V : Type κ} where
  abbrev pub values : Dict K V → List V
  values = map (λ kv. kv.1)

  -- `retain`
  abbrev pub retain : (K → V → Bool) → Dict K V → Dict K V
  retain p [] = []
  retain p ((k, v) ∷ m) = if p k v then (k, v) ∷ retain p m else retain p m

module _ {ℓ κ} {K : Type ℓ} {V : Type κ} ⦃e : PartialEq K⦄ where
  abbrev pub lookup : K → Dict K V → Option V
  lookup k [] = none
  lookup k ((j, v) ∷ m) = if j == k then some v else lookup k m

  abbrev pub insert : K → V → Dict K V → Dict K V
  insert k v [] = (k, v) ∷ []
  insert k v ((j, w) ∷ m) = if j == k then (k, v) ∷ m else (j, w) ∷ insert k v m

  abbrev pub remove : K → Dict K V → Dict K V
  remove k [] = []
  remove k ((j, v) ∷ m) = if j == k then remove k m else (j, v) ∷ remove k m

  -- A write through `get_mut`.
  abbrev pub update : K → (V → V) → Dict K V → Dict K V
  update k f [] = []
  update k f ((j, v) ∷ m) = if j == k then (j, f v) ∷ m else (j, v) ∷ update k f m

  -- A stored value takes part in every scan of the values.
  pub any-values :
      (p : V → Bool) (k : K) (v : V) (m : Dict K V)
      → lookup k m ≡ some v
      → p v ≡ true
      → any p (values m) ≡ true
  any-values p k v [] h t = absurd (ground arith)
  any-values p k v ((j, w) ∷ m) h t = ground (arith, any-values p k v m)

  pub lookup-insert :
      (k j : K) (v : V) (m : Dict K V)
      → lookup j (insert k v m) ≡ (if k == j then some v else lookup j m)
  lookup-insert k j v [] = refl
  lookup-insert k j v ((i, w) ∷ m) =
      ground (arith, e.beq_iff k j, e.beq_iff i k, e.beq_iff i j, lookup-insert k j v m)

  pub lookup-remove :
      (k j : K) (m : Dict K V) → lookup j (remove k m) ≡ (if k == j then none else lookup j m)
  lookup-remove k j [] = ground arith
  lookup-remove k j ((i, w) ∷ m) =
      ground (arith, e.beq_iff k j, e.beq_iff i k, e.beq_iff i j, lookup-remove k j m)

  pub lookup-update :
      (k j : K) (f : V → V) (m : Dict K V)
      → lookup j (update k f m) ≡ (if k == j then map_option f (lookup j m) else lookup j m)
  lookup-update k j f [] = ground arith
  lookup-update k j f ((i, w) ∷ m) =
      ground (arith, e.beq_iff k j, e.beq_iff i k, e.beq_iff i j, lookup-update k j f m)

  pub lookup-update_self :
      (k : K) (f : V → V) (m : Dict K V) {v : V}
      → lookup k m ≡ some v
      → lookup k (update k f m) ≡ some (f v)
  lookup-update_self k f m h = ground (arith, lookup-update k k f m, e.beq_iff k k)

  -- A filter on keys alone.
  pub lookup-retain_keys :
      (p : K → Bool) (j : K) (m : Dict K V)
      → lookup j (retain (λ k _. p k) m) ≡ (if p j then lookup j m else none)
  lookup-retain_keys p j [] = ground arith
  lookup-retain_keys p j ((i, w) ∷ m) = ground (arith, e.beq_iff i j, lookup-retain_keys p j m)

  -- Every key stands once.
  abbrev pub Distinct : Dict K V → Type κ
  Distinct [] = Unit
  Distinct ((k, v) ∷ m) = (lookup k m ≡ none) × Distinct m

  abbrev pub kept : (K → V → Bool) → K → Option V → Option V
  kept p k none = none
  kept p k (some v) = if p k v then some v else none

  lookup-retain_absent :
      (p : K → V → Bool) (j : K) (m : Dict K V) → lookup j m ≡ none → lookup j (retain p m) ≡ none
  lookup-retain_absent p j [] h = refl
  lookup-retain_absent p j ((i, w) ∷ m) h =
      ground (arith, e.beq_iff i j, lookup-retain_absent p j m)

  pub lookup-retain :
      (p : K → V → Bool) (j : K) (m : Dict K V)
      → Distinct m
      → lookup j (retain p m) ≡ kept p j (lookup j m)
  lookup-retain p j [] d = refl
  lookup-retain p j ((i, w) ∷ m) d =
      ground (arith, e.beq_iff i j, lookup-retain p j m d.1, lookup-retain_absent p j m)

  pub lookup-mem : (k : K) {v : V} (m : Dict K V) → lookup k m ≡ some v → Memᴰ v (values m)
  lookup-mem k [] h = absurd (ground arith)
  lookup-mem k {v} ((j, w) ∷ m) h = elim (Bool-cases (j == k)) [
    | inl here ↦ Memᴰ.head (ground arith)
    | inr there ↦ Memᴰ.tail (lookup-mem k m (ground arith))
  ]
