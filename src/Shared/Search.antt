-- ===== src/Shared/Search.antt =====
-- What the Boolean searches of a list decide, with the found element kept.
use mathlib.Core.Bool.{Bool, true, false}
use mathlib.Core.List.Memᴰ
use mathlib.Core.List.{List, [], ◌∷◌, Memᴰ}
use mathlib.Core.Logic.{inl, inr}
use mathlib.Core.Option.{none, some}
use mathlib.Core.Path.{◌≡◌, refl, sym, subst}
use native.Mathlib.Omega.{arith}
use tabbify_service_mesh.Shared.Lists.{any, select, find_first}
use tabbify_service_mesh.Shared.Tests.{Bool-cases}

module _ {ℓ} {A : Type ℓ} (p : A → Bool) where
  pub any-mem : (xs : List A) → any p xs ≡ true → (x : A) × Memᴰ x xs × (p x ≡ true)
  any-mem [] h = absurd (ground arith)
  any-mem (x ∷ xs) h = elim (Bool-cases (p x)) [
    | inl e ↦ (x, Memᴰ.head refl, e)
    | inr e ↦ let (y, m, q) = any-mem xs (ground arith) in (y, Memᴰ.tail m, q)
  ]

  pub any_of_mem : {x : A} {xs : List A} → Memᴰ x xs → p x ≡ true → any p xs ≡ true
  any_of_mem {x} (Memᴰ.head {x = y} e) h = let q : p y ≡ true = subst (λ z. p z ≡ true) e h in rw q
  any_of_mem (Memᴰ.tail {x = y} m) h = ground (arith, any_of_mem m h)

  pub select-mem : {x : A} (xs : List A) → Memᴰ x (select p xs) → Memᴰ x xs × (p x ≡ true)
  select-mem [] m = absurd (Memᴰ.not-nil m)
  select-mem {x} (y ∷ xs) m = elim (Bool-cases (p y)) [
    | inl e ↦ taken y xs e (rw e at m) (select-mem xs)
    | inr e ↦ let (r, q) = select-mem {x = x} xs (rw e at m) in (Memᴰ.tail r, q)
  ]
    where
      taken :
          (y : A) (xs : List A)
          → p y ≡ true
          → Memᴰ x (y ∷ select p xs)
          → (Memᴰ x (select p xs) → Memᴰ x xs × (p x ≡ true))
          → Memᴰ x (y ∷ xs) × (p x ≡ true)
      taken y xs e (Memᴰ.head q) rec = (Memᴰ.head q, rw q e)
      taken y xs e (Memᴰ.tail m) rec = let (r, q) = rec m in (Memᴰ.tail r, q)

  pub mem-select : {x : A} {xs : List A} → Memᴰ x xs → p x ≡ true → Memᴰ x (select p xs)
  mem-select {x} (Memᴰ.head {x = y} e) h =
      let q : p y ≡ true = subst (λ z. p z ≡ true) e h in rw q (Memᴰ.head e)
  mem-select {x} (Memᴰ.tail {x = y} {xs = ys} m) h = elim (Bool-cases (p y)) [
    | inl e ↦ rw e (Memᴰ.tail (mem-select m h))
    | inr e ↦ rw e (mem-select m h)
  ]

  pub find_first-none : {x : A} {xs : List A} → Memᴰ x xs → find_first p xs ≡ none → p x ≡ false
  find_first-none {x} (Memᴰ.head {x = y} e) h =
      let q : p y ≡ false = ground arith in subst (λ z. p z ≡ false) (sym e) q
  find_first-none (Memᴰ.tail {x = y} {xs = ys} m) h = find_first-none m (ground arith)

  pub find_first-some : (xs : List A) {x : A} → find_first p xs ≡ some x → Memᴰ x xs × (p x ≡ true)
  find_first-some [] h = absurd (ground arith)
  find_first-some (y ∷ xs) {x} h = elim (Bool-cases (p y)) [
    | inl e ↦ (Memᴰ.head (ground arith), ground arith)
    | inr e ↦ let (m, q) = find_first-some xs (ground arith) in (Memᴰ.tail m, q)
  ]
