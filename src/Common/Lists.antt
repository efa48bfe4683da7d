-- ===== src/Common/Lists.antt =====
-- Lists as the array methods of JavaScript read them, with native lengths.
use Prim.Native.Nat.{ℕ, zero, suc, ◌+◌, ◌<◌}
use mathlib.Core.Path.{◌≡◌, refl, ap}
use mathlib.Core.Logic.{◌≢◌, ◌⊎◌, inl, inr}
use mathlib.Core.Bool.{Bool, true, false, ◌||◌}
use mathlib.Core.Option.{Option, none, some}
use mathlib.Core.List.{List, [], ◌∷◌, ◌++◌, map}
use native.Mathlib.Omega.{arith}
use ai_with_mafia.Common.Tests.{if◌then◌else◌, Bool-cases, eqb, eq_of_some}

eqb-zero_suc : (j : ℕ) → eqb 0 (suc j) ≡ false
eqb-zero_suc j = ground arith

eqb-suc_zero : (i : ℕ) → eqb (suc i) 0 ≡ false
eqb-suc_zero i = ground arith

eqb-suc : (i j : ℕ) → eqb (suc i) (suc j) ≡ eqb i j
eqb-suc i j = ground arith

module _ {ℓ} {A : Type ℓ} where
  abbrev pub length : List A → ℕ
  length [] = 0
  length (x ∷ xs) = suc (length xs)

  abbrev pub get_elem? : List A → ℕ → Option A
  get_elem? [] i = none
  get_elem? (x ∷ xs) zero = some x
  get_elem? (x ∷ xs) (suc i) = get_elem? xs i

  -- A change at an index out of range changes nothing.
  abbrev pub modify : List A → ℕ → (A → A) → List A
  modify [] i f = []
  modify (x ∷ xs) zero f = f x ∷ xs
  modify (x ∷ xs) (suc i) f = x ∷ modify xs i f

  unfoldable pub filter : (A → Bool) → List A → List A
  filter p [] = []
  filter p (x ∷ xs) = let rest = filter p xs in if p x then x ∷ rest else rest

  unfoldable pub find : (A → Bool) → List A → Option A
  find p [] = none
  find p (x ∷ xs) = if p x then some x else find p xs

  -- `some`
  unfoldable pub any : (A → Bool) → List A → Bool
  any p [] = false
  any p (x ∷ xs) = p x || any p xs

  -- `slice(1)`
  abbrev pub drop_one : List A → List A
  drop_one [] = []
  drop_one (x ∷ xs) = xs

  pub length-append : (xs ys : List A) → length (xs ++ ys) ≡ length xs + length ys
  length-append [] ys = omega arith
  length-append (x ∷ xs) ys = omega (arith, length-append xs ys)

  pub length-modify : (xs : List A) (i : ℕ) (f : A → A) → length (modify xs i f) ≡ length xs
  length-modify [] i f = refl
  length-modify (x ∷ xs) zero f = refl
  length-modify (x ∷ xs) (suc i) f = ap suc (length-modify xs i f)

  pub get_elem?-lt : (xs : List A) (i : ℕ) {a : A} → get_elem? xs i ≡ some a → i < length xs
  get_elem?-lt [] i h = cc
  get_elem?-lt (x ∷ xs) zero h = omega arith
  get_elem?-lt (x ∷ xs) (suc i) h = omega (arith, get_elem?-lt xs i h)

  pub find-test : (p : A → Bool) (xs : List A) {a : A} → find p xs ≡ some a → p a ≡ true
  unfolding find
  find-test p [] h = cc
  find-test p (x ∷ xs) h = elim (Bool-cases (p x)) [
    | inl e ↦ ground (arith, e)
    | inr e ↦ find-test p xs (rw e at h)
  ]

  -- What stands in a list after a change: the changed element, or an old one elsewhere.
  pub get_elem?-modify :
      (xs : List A) (i j : ℕ) (f : A → A) {b : A}
      → get_elem? (modify xs i f) j ≡ some b
      → ((i ≡ j) × ((a : A) × (get_elem? xs j ≡ some a) × (b ≡ f a)))
        ⊎ ((i ≢ j) × (get_elem? xs j ≡ some b))
  get_elem?-modify [] i j f h = cc
  get_elem?-modify (x ∷ xs) zero zero f h = inl (refl, (x, refl, ground arith))
  get_elem?-modify (x ∷ xs) zero (suc j) f h = inr (omega arith, h)
  get_elem?-modify (x ∷ xs) (suc i) zero f h = inr (omega arith, h)
  get_elem?-modify (x ∷ xs) (suc i) (suc j) f h = elim (get_elem?-modify xs i j f h) [
    | inl (e, w) ↦ inl (ap suc e, w)
    | inr (n, w) ↦ inr (omega arith, w)
  ]

  pub get_elem?-modify_at :
      (xs : List A) (i j : ℕ) (f : A → A) {a : A}
      → get_elem? xs j ≡ some a
      → get_elem? (modify xs i f) j ≡ some (if eqb i j then f a else a)
  get_elem?-modify_at [] i j f h = cc
  get_elem?-modify_at (x ∷ xs) zero zero f h = ap some (ap f (eq_of_some h))
  get_elem?-modify_at (x ∷ xs) zero (suc j) f h = rw (eqb-zero_suc j) h
  get_elem?-modify_at (x ∷ xs) (suc i) zero f h = rw (eqb-suc_zero i) h
  get_elem?-modify_at (x ∷ xs) (suc i) (suc j) f h =
      rw (eqb-suc i j) (get_elem?-modify_at xs i j f h)

  pub get_elem?-modify_same :
      (xs : List A) (i : ℕ) (f : A → A) {a : A}
      → get_elem? xs i ≡ some a
      → get_elem? (modify xs i f) i ≡ some (f a)
  get_elem?-modify_same [] i f h = cc
  get_elem?-modify_same (x ∷ xs) zero f h = ap some (ap f (eq_of_some h))
  get_elem?-modify_same (x ∷ xs) (suc i) f h = get_elem?-modify_same xs i f h

  pub get_elem?-modify_other :
      (xs : List A) (i j : ℕ) (f : A → A) → j ≢ i → get_elem? (modify xs i f) j ≡ get_elem? xs j
  get_elem?-modify_other [] i j f h = refl
  get_elem?-modify_other (x ∷ xs) zero zero f h = absurd (h refl)
  get_elem?-modify_other (x ∷ xs) zero (suc j) f h = refl
  get_elem?-modify_other (x ∷ xs) (suc i) zero f h = refl
  get_elem?-modify_other (x ∷ xs) (suc i) (suc j) f h =
      get_elem?-modify_other xs i j f (λ e. h (ap suc e))

  pub get_elem?-append :
      (xs ys : List A) (n : ℕ) {a : A} → get_elem? xs n ≡ some a → get_elem? (xs ++ ys) n ≡ some a
  get_elem?-append [] ys n h = cc
  get_elem?-append (x ∷ xs) ys zero h = h
  get_elem?-append (x ∷ xs) ys (suc n) h = get_elem?-append xs ys n h

  pub get_elem?-last :
      (xs : List A) (x : A) (n : ℕ) → n ≡ length xs → get_elem? (xs ++ x ∷ []) n ≡ some x
  get_elem?-last [] x zero h = refl
  get_elem?-last [] x (suc n) h = absurd (omega arith)
  get_elem?-last (y ∷ xs) x zero h = absurd (omega arith)
  get_elem?-last (y ∷ xs) x (suc n) h = get_elem?-last xs x n (omega arith)

  -- What stands in a list after one more element was put behind it.
  pub get_elem?-concat :
      (xs : List A) (x : A) (j : ℕ) {b : A}
      → get_elem? (xs ++ x ∷ []) j ≡ some b
      → ((j ≡ length xs) × (b ≡ x)) ⊎ (get_elem? xs j ≡ some b)
  get_elem?-concat [] x zero h = inl (refl, ground arith)
  get_elem?-concat [] x (suc j) h = cc
  get_elem?-concat (y ∷ xs) x zero h = inr h
  get_elem?-concat (y ∷ xs) x (suc j) h = elim (get_elem?-concat xs x j h) [
    | inl (e, w) ↦ inl (ap suc e, w)
    | inr w ↦ inr w
  ]

module _ {ℓ κ} {A : Type ℓ} (P : A → Type κ) where
  abbrev pub All : List A → Type κ
  All [] = Unit
  All (x ∷ xs) = P x × All xs

module _ {ℓ κ} {A : Type ℓ} (P : A → Type κ) where
  pub All-concat : (xs : List A) {x : A} → All P xs → P x → All P (xs ++ x ∷ [])
  All-concat [] h p = (p, tt)
  All-concat (y ∷ xs) h p = (h.0, All-concat xs h.1 p)

  pub All-filter : (q : A → Bool) (xs : List A) → All P xs → All P (filter q xs)
  unfolding filter
  All-filter q [] h = tt
  All-filter q (x ∷ xs) h = elim (Bool-cases (q x)) [
    | inl e ↦ rw e (h.0, All-filter q xs h.1)
    | inr e ↦ rw e (All-filter q xs h.1)
  ]

  -- Every element that a filter leaves passes its test.
  pub All-of_filter :
      (q : A → Bool) (xs : List A) → ((x : A) → q x ≡ true → P x) → All P (filter q xs)
  unfolding filter
  All-of_filter q [] h = tt
  All-of_filter q (x ∷ xs) h = elim (Bool-cases (q x)) [
    | inl e ↦ rw e (h x e, All-of_filter q xs h)
    | inr e ↦ rw e (All-of_filter q xs h)
  ]

  pub All-map_self :
      (f : A → A) (xs : List A) → ((x : A) → P x → P (f x)) → All P xs → All P (map f xs)
  All-map_self f [] k h = tt
  All-map_self f (x ∷ xs) k h = (k x h.0, All-map_self f xs k h.1)

  pub All-map {μ} :
      {B : Type μ} (f : B → A) (xs : List B) → All (λ b. P (f b)) xs → All P (map f xs)
  All-map f [] h = tt
  All-map f (x ∷ xs) h = (h.0, All-map f xs h.1)

  pub All-weaken {μ} : {Q : A → Type μ} (xs : List A) → ((x : A) → P x → Q x) → All P xs → All Q xs
  All-weaken [] k h = tt
  All-weaken (x ∷ xs) k h = (k x h.0, All-weaken xs k h.1)
