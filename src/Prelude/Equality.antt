-- ===== src/Prelude/Equality.antt =====
-- Boolean equality as an interface (Rust's `PartialEq` and `Eq`), for numbers, lists and options.
use Prim.Native.Nat.{ℕ}
use mathlib.Core.Path.{◌≡◌, refl}
use mathlib.Core.Logic.{◌↔◌, ◌≢◌, inl, inr}
use mathlib.Core.Bool.{Bool, true, false, ◌&&◌, ◌||◌}
use mathlib.Core.List.{List, [], ◌∷◌}
use native.Mathlib.Omega.{arith}
use den_browser.Prelude.Tests.{nat_beq, nat_beq_iff, if◌then◌else◌, Bool-cases}

pub record Eq {κ} (T : Type κ) : Type κ where
  pub eq : T → T → Bool
  pub eq_reflects : (x y : T) → (eq x y ≡ true) ↔ (x ≡ y)

infix 50 ◌==◌
abbrev pub ◌==◌ {κ} : {T : Type κ} ⦃i : Eq T⦄ → T → T → Bool
◌==◌ ⦃i⦄ x y = i.eq x y

pub eq_iff {κ} : {T : Type κ} ⦃i : Eq T⦄ (x y : T) → ((x == y) ≡ true) ↔ (x ≡ y)
eq_iff ⦃i⦄ x y = i.eq_reflects x y

pub eq_refl {κ} : {T : Type κ} ⦃i : Eq T⦄ (x : T) → (x == x) ≡ true
eq_refl ⦃i⦄ x = (i.eq_reflects x x).1 refl

instance abbrev pub nat_eq : Eq ℕ
nat_eq = record { eq_reflects = nat_beq_iff; eq = nat_beq }

module _ {ℓ} {A : Type ℓ} ⦃e : Eq A⦄ where
  unfoldable pub list_beq : List A → List A → Bool
  list_beq [] [] = true
  list_beq (x ∷ xs) (y ∷ ys) = x == y && list_beq xs ys
  list_beq _ _ = false

  pub list_beq_iff : (xs ys : List A) → (list_beq xs ys ≡ true) ↔ (xs ≡ ys)
  unfolding list_beq
  list_beq_iff [] [] = ground arith
  list_beq_iff [] (y ∷ ys) = ground arith
  list_beq_iff (x ∷ xs) [] = ground arith
  list_beq_iff (x ∷ xs) (y ∷ ys) = ground (arith, e.eq_reflects x y, list_beq_iff xs ys)

instance abbrev pub list_eq {ℓ} : {A : Type ℓ} ⦃e : Eq A⦄ → Eq (List A)
list_eq ⦃e⦄ = record { eq = list_beq ⦃e = e⦄; eq_reflects = list_beq_iff ⦃e = e⦄ }

module _ {ℓ} {A : Type ℓ} ⦃e : Eq A⦄ where
  -- `slice::contains`, and membership in a `HashSet`.
  unfoldable pub contains : A → List A → Bool
  contains a [] = false
  contains a (x ∷ xs) = x == a || contains a xs

  -- `HashSet::remove`, on a set kept as a list.
  unfoldable pub remove : A → List A → List A
  remove a [] = []
  remove a (x ∷ xs) = let rest = remove a xs in if x == a then rest else x ∷ rest

  pub contains-remove_self : (a : A) (xs : List A) → contains a (remove a xs) ≡ false
  unfolding contains remove
  contains-remove_self a [] = refl
  contains-remove_self a (x ∷ xs) = ground (arith, contains-remove_self a xs)

  pub contains-remove_ne :
      (a b : A) (xs : List A) → a ≢ b → contains b (remove a xs) ≡ contains b xs
  unfolding contains remove
  contains-remove_ne a b [] h = refl
  contains-remove_ne a b (x ∷ xs) h =
      ground (arith, contains-remove_ne a b xs h, eq_iff x a, eq_iff x b)

pub beq_comm {ℓ} : {A : Type ℓ} ⦃e : Eq A⦄ (a b : A) → (a == b) ≡ (b == a)
beq_comm a b = ground (arith, eq_iff a b, eq_iff b a)

pub ne-beq {ℓ} : {A : Type ℓ} ⦃e : Eq A⦄ {a b : A} → a ≢ b → (a == b) ≡ false
ne-beq {a = a} {b = b} differ = elim (Bool-cases (a == b)) [
  | inl same ↦ absurd (differ ((eq_iff a b).0 same))
  | inr other ↦ other
]
