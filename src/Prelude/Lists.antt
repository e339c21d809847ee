-- ===== src/Prelude/Lists.antt =====
-- Lists measured by native numbers, and predicates on their elements.
use Prim.Native.Nat.{ℕ, suc, ◌+◌}
use mathlib.Core.Path.{◌≡◌, refl, sym, subst}
use mathlib.Core.Logic.{◌⊎◌, inl, inr}
use mathlib.Core.Bool.{Bool, true, false, ◌&&◌, ◌||◌}
use mathlib.Core.List.{List, [], ◌∷◌, ◌++◌, Memᴰ}
use native.Mathlib.Omega.{arith}
use agola.Prelude.Tests.{Bool-cases}

module _ {ℓ} {A : Type ℓ} where
  abbrev pub length : List A → ℕ
  length [] = 0
  length (x ∷ xs) = suc (length xs)

  pub length-append : (xs ys : List A) → length (xs ++ ys) ≡ length xs + length ys
  length-append [] ys = omega arith
  length-append (x ∷ xs) ys = omega (arith, length-append xs ys)

  -- `for _, x := range xs { if p(x) { found = true } }`
  abbrev pub any : (A → Bool) → List A → Bool
  any p [] = false
  any p (x ∷ xs) = p x || any p xs

  -- `for _, x := range xs { if !p(x) { ok = false } }`
  abbrev pub all : (A → Bool) → List A → Bool
  all p [] = true
  all p (x ∷ xs) = p x && all p xs

  abbrev pub filter : (A → Bool) → List A → List A
  filter p [] = []
  filter p (x ∷ xs) = elim (p x) [ true ↦ x ∷ filter p xs | false ↦ filter p xs ]

  abbrev pub All {κ} : (A → Type κ) → List A → Type κ
  All P [] = Unit
  All P (x ∷ xs) = P x × All P xs

  pub All-mem {κ} : (P : A → Type κ) {x : A} (xs : List A) → All P xs → Memᴰ x xs → P x
  All-mem P [] h m = elim m [ ]
  All-mem P (y ∷ xs) h (Memᴰ.head e) = subst P (sym e) h.0
  All-mem P (y ∷ xs) h (Memᴰ.tail m) = All-mem P xs h.1 m

  pub All-of_mem {κ} : (P : A → Type κ) (xs : List A) → ((x : A) → Memᴰ x xs → P x) → All P xs
  All-of_mem P [] h = tt
  All-of_mem P (x ∷ xs) h = (h x (Memᴰ.head refl), All-of_mem P xs (λ y m. h y (Memᴰ.tail m)))

  pub mem-append : (xs ys : List A) {x : A} → Memᴰ x (xs ++ ys) → Memᴰ x xs ⊎ Memᴰ x ys
  mem-append [] ys i = inr i
  mem-append (y ∷ xs) ys (Memᴰ.head e) = inl (Memᴰ.head e)
  mem-append (y ∷ xs) ys (Memᴰ.tail i) = elim (mem-append xs ys i) [
    | inl l ↦ inl (Memᴰ.tail l)
    | inr r ↦ inr r
  ]

  pub all→mem : (p : A → Bool) {x : A} (xs : List A) → all p xs ≡ true → Memᴰ x xs → p x ≡ true
  all→mem p [] h m = elim m [ ]
  all→mem p (y ∷ xs) h (Memᴰ.head e) = subst (λ z. p z ≡ true) (sym e) (ground arith)
  all→mem p (y ∷ xs) h (Memᴰ.tail m) = all→mem p xs (ground arith) m

  pub mem→all : (p : A → Bool) (xs : List A) → ((x : A) → Memᴰ x xs → p x ≡ true) → all p xs ≡ true
  mem→all p [] h = refl
  mem→all p (x ∷ xs) h =
      ground (arith, h x (Memᴰ.head refl), mem→all p xs (λ y m. h y (Memᴰ.tail m)))

  pub any-mem : (p : A → Bool) {x : A} (xs : List A) → Memᴰ x xs → p x ≡ true → any p xs ≡ true
  any-mem p [] m e = elim m [ ]
  any-mem p (y ∷ xs) (Memᴰ.head q) e = let ey : p y ≡ true = subst (λ z. p z ≡ true) q e in rw ey
  any-mem p (y ∷ xs) (Memᴰ.tail m) e = ground (arith, any-mem p xs m e)

  pub filter-mem :
      (p : A → Bool) {x : A} (xs : List A) → Memᴰ x (filter p xs) → Memᴰ x xs × (p x ≡ true)
  filter-mem p [] m = elim m [ ]
  filter-mem p {x} (y ∷ xs) m = elim (Bool-cases (p y)) [
    | inl e ↦ kept e (rw (e, filter) at m) (filter-mem p xs)
    | inr e ↦ let (a, b) = filter-mem p xs (rw (e, filter) at m) in (Memᴰ.tail a, b)
  ]
    where
      kept :
          p y ≡ true
          → Memᴰ x (y ∷ filter p xs)
          → (Memᴰ x (filter p xs) → Memᴰ x xs × (p x ≡ true))
          → Memᴰ x (y ∷ xs) × (p x ≡ true)
      kept e (Memᴰ.head q) ih = (Memᴰ.head q, subst (λ z. p z ≡ true) (sym q) e)
      kept e (Memᴰ.tail t) ih = let (a, b) = ih t in (Memᴰ.tail a, b)

  pub mem-filter :
      (p : A → Bool) {x : A} (xs : List A) → Memᴰ x xs → p x ≡ true → Memᴰ x (filter p xs)
  mem-filter p [] m e = elim m [ ]
  mem-filter p {x} (y ∷ xs) (Memᴰ.head q) e =
      let ey : p y ≡ true = subst (λ z. p z ≡ true) q e in rw (ey, filter) (Memᴰ.head q)
  mem-filter p {x} (y ∷ xs) (Memᴰ.tail t) e = elim (Bool-cases (p y)) [
    | inl ey ↦ rw (ey, filter) (Memᴰ.tail (mem-filter p xs t e))
    | inr ey ↦ rw (ey, filter) (mem-filter p xs t e)
  ]
