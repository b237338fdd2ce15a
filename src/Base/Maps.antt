-- ===== src/Base/Maps.antt =====
-- `std::unordered_map` as an association list, over keys that can be compared.
use Prim.Native.Nat.{ℕ}
use mathlib.Core.Path.{◌≡◌, refl, ap, ap₂}
use mathlib.Core.Logic.{◌↔◌}
use mathlib.Core.Bool.{Bool, true, false, ◌&&◌}
use mathlib.Core.List.{List, [], ◌∷◌}
use mathlib.Core.Option.{Option, none, some}
use native.Mathlib.Omega.{arith}
use stratavm.Base.Tests.{if◌then◌else◌, ◌==◌, ==_iff}

pub record Eq (A : Type 0) : Type 0 where
  pub beq : A → A → Bool
  pub beq_iff : (a b : A) → (beq a b ≡ true) ↔ (a ≡ b)

abbrev pub bytes_beq : List ℕ → List ℕ → Bool
bytes_beq [] [] = true
bytes_beq (x ∷ xs) (y ∷ ys) = x == y && bytes_beq xs ys
bytes_beq _ _ = false

bytes_beq_to : (xs ys : List ℕ) → bytes_beq xs ys ≡ true → xs ≡ ys
bytes_beq_to [] [] h = refl
bytes_beq_to [] (y ∷ ys) h = cc
bytes_beq_to (x ∷ xs) [] h = cc
bytes_beq_to (x ∷ xs) (y ∷ ys) h = ground (arith, bytes_beq_to xs ys)

bytes_beq_self : (xs : List ℕ) → bytes_beq xs xs ≡ true
bytes_beq_self [] = refl
bytes_beq_self (x ∷ xs) = ground (arith, bytes_beq_self xs)

pub bytes_beq_iff : (xs ys : List ℕ) → (bytes_beq xs ys ≡ true) ↔ (xs ≡ ys)
bytes_beq_iff xs ys = (bytes_beq_to xs ys, λ e. rw e (bytes_beq_self ys))

both_left : (a b : Bool) → (a && b) ≡ true → a ≡ true
both_left true b h = refl
both_left false b h = h

both_right : (a b : Bool) → (a && b) ≡ true → b ≡ true
both_right true b h = h
both_right false b h = cc

both : (a b : Bool) → a ≡ true → b ≡ true → (a && b) ≡ true
both true b h k = k
both false b h k = h

instance abbrev pub nat_eq : Eq ℕ
nat_eq = record { beq = ◌==◌; beq_iff = ==_iff }

instance abbrev pub bytes_eq : Eq (List ℕ)
bytes_eq = record { beq = bytes_beq; beq_iff = bytes_beq_iff }

abbrev pub Map : Type 0 → Type 0 → Type 0
Map K V = List (K × V)

module _ {K V : Type 0} ⦃e : Eq K⦄ where
  unfoldable pub lookup : K → Map K V → Option V
  lookup k [] = none
  lookup k ((j, v) ∷ m) = if e.beq j k then some v else lookup k m

  unfoldable pub insert : K → V → Map K V → Map K V
  insert k v [] = (k, v) ∷ []
  insert k v ((j, w) ∷ m) = if e.beq j k then (k, v) ∷ m else (j, w) ∷ insert k v m

  unfoldable pub erase : K → Map K V → Map K V
  erase k [] = []
  erase k ((j, w) ∷ m) = let rest = erase k m in if e.beq j k then rest else (j, w) ∷ rest

  pub lookup-insert :
      (k j : K) (v : V) (m : Map K V)
      → lookup j (insert k v m) ≡ (if e.beq k j then some v else lookup j m)
  unfolding lookup insert
  lookup-insert k j v [] = refl
  lookup-insert k j v ((i, w) ∷ m) =
      ground (arith, e.beq_iff k j, e.beq_iff i k, e.beq_iff i j, lookup-insert k j v m)

  pub lookup-erase :
      (k j : K) (m : Map K V) → lookup j (erase k m) ≡ (if e.beq k j then none else lookup j m)
  unfolding lookup erase
  lookup-erase k j [] = ground arith
  lookup-erase k j ((i, w) ∷ m) =
      ground (arith, e.beq_iff k j, e.beq_iff i k, e.beq_iff i j, lookup-erase k j m)

pub pair_beq_iff :
    {A B : Type 0} ⦃ea : Eq A⦄ ⦃eb : Eq B⦄ (p q : A × B)
    → ((ea.beq p.0 q.0 && eb.beq p.1 q.1) ≡ true) ↔ (p ≡ q)
pair_beq_iff ⦃ea⦄ ⦃eb⦄ p q = (
  λ h.
      ap₂ (λ a b. (a, b)) ((ea.beq_iff p.0 q.0).0 (both_left _ _ h))
        ((eb.beq_iff p.1 q.1).0 (both_right (ea.beq p.0 q.0) _ h)),
  λ e.
      both (ea.beq p.0 q.0) _ ((ea.beq_iff p.0 q.0).1 (ap (λ r. r.0) e))
        ((eb.beq_iff p.1 q.1).1 (ap (λ r. r.1) e)),
)

-- `std::pair` as a key.
instance abbrev pub pair_eq : {A B : Type 0} ⦃ea : Eq A⦄ ⦃eb : Eq B⦄ → Eq (A × B)
pair_eq ⦃ea⦄ ⦃eb⦄ = record { beq = λ p q. ea.beq p.0 q.0 && eb.beq p.1 q.1; beq_iff = pair_beq_iff }
