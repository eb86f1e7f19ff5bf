-- ===== src/Shared/Sort.antt =====
-- `sort_by_key`: a stable sort, its order and its members.
use Prim.Native.Nat.{ℕ, ◌≤◌}
use mathlib.Core.List.{List, [], ◌∷◌, Memᴰ}
use mathlib.Core.List.Memᴰ
use mathlib.Core.Logic.{◌⊎◌, inl, inr}
use mathlib.Core.Path.{◌≡◌, refl, sym, subst}
use native.Mathlib.Omega.{arith}
use tabbify_service_mesh.Shared.Tests.{leb, if◌then◌else◌, Bool-cases}

module _ {ℓ} {A : Type ℓ} (key : A → ℕ) where
  abbrev pub insert_by : A → List A → List A
  insert_by x [] = x ∷ []
  insert_by x (y ∷ ys) = if leb (key x) (key y) then x ∷ y ∷ ys else y ∷ insert_by x ys

  abbrev pub sort_by_key : List A → List A
  sort_by_key [] = []
  sort_by_key (x ∷ xs) = insert_by x (sort_by_key xs)

  -- The keys do not fall, from a least one on.
  abbrev pub Ascending : ℕ → List A → Type 0
  Ascending k [] = Unit {0}
  Ascending k (x ∷ xs) = (k ≤ key x) × Ascending (key x) xs

  insert_by-Ascending :
      (k : ℕ) (x : A) (xs : List A) → k ≤ key x → Ascending k xs → Ascending k (insert_by x xs)
  insert_by-Ascending k x [] h a = (h, tt)
  insert_by-Ascending k x (y ∷ ys) h a = elim (Bool-cases (leb (key x) (key y))) [
    | inl le ↦ rw le (h, (ground arith, a.1))
    | inr gt ↦ rw gt (a.0, insert_by-Ascending (key y) x ys (ground arith) a.1)
  ]

  pub sort_by_key-Ascending : (xs : List A) → Ascending 0 (sort_by_key xs)
  sort_by_key-Ascending [] = tt
  sort_by_key-Ascending (x ∷ xs) =
      insert_by-Ascending 0 x (sort_by_key xs) (omega arith) (sort_by_key-Ascending xs)

  mem-insert_by_head : (x : A) (ys : List A) → Memᴰ x (insert_by x ys)
  mem-insert_by_head x [] = Memᴰ.head refl
  mem-insert_by_head x (y ∷ ys) = elim (Bool-cases (leb (key x) (key y))) [
    | inl le ↦ rw le (Memᴰ.head refl)
    | inr gt ↦ rw gt (Memᴰ.tail (mem-insert_by_head x ys))
  ]

  mem-insert_by_tail : {z : A} (x : A) {ys : List A} → Memᴰ z ys → Memᴰ z (insert_by x ys)
  mem-insert_by_tail x (Memᴰ.head {x = y} {xs = ys} e) = elim (Bool-cases (leb (key x) (key y))) [
    | inl le ↦ rw le (Memᴰ.tail (Memᴰ.head e))
    | inr gt ↦ rw gt (Memᴰ.head e)
  ]
  mem-insert_by_tail x (Memᴰ.tail {x = y} {xs = ys} m) = elim (Bool-cases (leb (key x) (key y))) [
    | inl le ↦ rw le (Memᴰ.tail (Memᴰ.tail m))
    | inr gt ↦ rw gt (Memᴰ.tail (mem-insert_by_tail x m))
  ]

  pub mem-sort : {z : A} {xs : List A} → Memᴰ z xs → Memᴰ z (sort_by_key xs)
  mem-sort (Memᴰ.head {x = y} {xs = ys} e) =
      subst (λ w. Memᴰ w (insert_by y (sort_by_key ys))) (sym e)
        (mem-insert_by_head y (sort_by_key ys))
  mem-sort (Memᴰ.tail {x = y} m) = mem-insert_by_tail y (mem-sort m)

  insert_by-mem : {z : A} (x : A) (ys : List A) → Memᴰ z (insert_by x ys) → (z ≡ x) ⊎ Memᴰ z ys
  insert_by-mem x [] (Memᴰ.head e) = inl e
  insert_by-mem x [] (Memᴰ.tail m) = absurd (Memᴰ.not-nil m)
  insert_by-mem {z} x (y ∷ ys) m = elim (Bool-cases (leb (key x) (key y))) [
    | inl le ↦ first (rw le at m)
    | inr gt ↦ later (rw gt at m) (insert_by-mem x ys)
  ]
    where
      first : Memᴰ z (x ∷ y ∷ ys) → (z ≡ x) ⊎ Memᴰ z (y ∷ ys)
      first (Memᴰ.head e) = inl e
      first (Memᴰ.tail r) = inr r

      later :
          Memᴰ z (y ∷ insert_by x ys)
          → (Memᴰ z (insert_by x ys) → (z ≡ x) ⊎ Memᴰ z ys)
          → (z ≡ x) ⊎ Memᴰ z (y ∷ ys)
      later (Memᴰ.head e) rec = inr (Memᴰ.head e)
      later (Memᴰ.tail r) rec = elim (rec r) [ inl e ↦ inl e | inr s ↦ inr (Memᴰ.tail s) ]

  pub sort-mem : {z : A} (xs : List A) → Memᴰ z (sort_by_key xs) → Memᴰ z xs
  sort-mem [] m = m
  sort-mem (x ∷ xs) m = elim (insert_by-mem x (sort_by_key xs) m) [
    | inl e ↦ Memᴰ.head e
    | inr r ↦ Memᴰ.tail (sort-mem xs r)
  ]
