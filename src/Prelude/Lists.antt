-- ===== src/Prelude/Lists.antt =====
-- Lists measured and searched over the native numbers, and predicates on their members.
use Prim.Native.Nat.{ℕ, suc, ◌+◌}
use mathlib.Core.Path.{◌≡◌}
use mathlib.Core.Logic.{inl, inr}
use mathlib.Core.Bool.{Bool, true, false, ◌||◌, ◌&&◌}
use mathlib.Core.List.{List, [], ◌∷◌, ◌++◌, Memᴰ}
use native.Mathlib.Omega.{arith}
use hqmts.Prelude.Tests.{if◌then◌else◌, decided, decided-true, decided_of, Bool-cases}

module _ {ℓ} {A : Type ℓ} where
  abbrev pub length : List A → ℕ
  length [] = 0
  length (x ∷ xs) = suc (length xs)

  abbrev pub All {κ} : (A → Type κ) → List A → Type κ
  All P [] = Unit
  All P (x ∷ xs) = P x × All P xs

  -- `any(p(x) for x in xs)` and `all(p(x) for x in xs)`
  abbrev pub any : (A → Bool) → List A → Bool
  any p [] = false
  any p (x ∷ xs) = p x || any p xs

  abbrev pub all : (A → Bool) → List A → Bool
  all p [] = true
  all p (x ∷ xs) = p x && all p xs

  -- `[x for x in xs if p(x)]`
  abbrev pub keep : (A → Bool) → List A → List A
  keep p [] = []
  keep p (x ∷ xs) = let rest = keep p xs in if p x then x ∷ rest else rest

  -- `x in xs`
  abbrev pub contains : Discrete A → A → List A → Bool
  contains eq a xs = any (λ x. decided (eq a x)) xs

  pub length-append : (xs ys : List A) → length (xs ++ ys) ≡ length xs + length ys
  length-append [] ys = omega arith
  length-append (x ∷ xs) ys = omega (arith, length-append xs ys)

  pub Memᴰ-contains : (eq : Discrete A) (a : A) (xs : List A) → contains eq a xs ≡ true → Memᴰ a xs
  Memᴰ-contains eq a [] h = cc
  Memᴰ-contains eq a (x ∷ xs) h = elim (Bool-cases (decided (eq a x))) [
    | inl e ↦ Memᴰ.head (decided-true (eq a x) e)
    | inr e ↦ Memᴰ.tail (Memᴰ-contains eq a xs (ground arith))
  ]

  pub contains_of_Memᴰ :
      (eq : Discrete A) {a : A} {xs : List A} → Memᴰ a xs → contains eq a xs ≡ true
  contains_of_Memᴰ eq {a} {xs = []} m = elim m [ ]
  contains_of_Memᴰ eq {a} {xs = x ∷ xs} (Memᴰ.head e) = ground (arith, decided_of (eq a x) e)
  contains_of_Memᴰ eq {a} {xs = x ∷ xs} (Memᴰ.tail m) = ground (arith, contains_of_Memᴰ eq m)

  pub all_of_Memᴰ : (p : A → Bool) {a : A} {xs : List A} → all p xs ≡ true → Memᴰ a xs → p a ≡ true
  all_of_Memᴰ p {a} {xs = []} h m = elim m [ ]
  all_of_Memᴰ p {a} {xs = x ∷ xs} h (Memᴰ.head e) = ground arith
  all_of_Memᴰ p {a} {xs = x ∷ xs} h (Memᴰ.tail m) = all_of_Memᴰ p (ground arith) m
