-- ===== src/Base/Covering.antt =====
-- Lists of numbers without repetition, and what follows from their lengths.
use Prim.Native.Nat.{ℕ, suc, ◌≤◌}
use mathlib.Core.Path.{◌≡◌, refl, sym, subst}
use mathlib.Core.Logic.{inl, inr}
use mathlib.Core.Bool.{true, false}
use mathlib.Core.List.{List, [], ◌∷◌}
use native.Mathlib.Omega.{arith}
use logistics_center.Base.Tests.{if◌then◌else◌, ◌==◌, Bool-cases, ==_iff}
use logistics_center.Base.Lists.{length, Elem}

abbrev pub Distinct : List ℕ → Type 0
Distinct [] = Unit
Distinct (x ∷ xs) = (Elem x xs → ⊥) × Distinct xs

-- Without the first occurrence.
abbrev pub remove : ℕ → List ℕ → List ℕ
remove x [] = []
remove x (y ∷ ys) = let rest = remove x ys in if y == x then ys else y ∷ rest

length-remove : (x : ℕ) (ys : List ℕ) → Elem x ys → suc (length (remove x ys)) ≡ length ys
length-remove x [] m = absurd m
length-remove x (y ∷ ys) m = elim (Bool-cases (y == x)) [
  | inl e ↦ ground (arith, e)
  | inr f ↦ elim m [
    | inl same ↦ absurd (ground (arith, same, f))
    | inr later ↦ ground (arith, f, length-remove x ys later)
  ]
]

Elem-remove : (x z : ℕ) (ys : List ℕ) → Elem z ys → (z == x) ≡ false → Elem z (remove x ys)
Elem-remove x z [] m f = absurd m
Elem-remove x z (y ∷ ys) m f = elim (Bool-cases (y == x)) [
  | inl e ↦ elim m [
    | inl same ↦ absurd (ground (arith, same, f, e))
    | inr later ↦ subst (Elem z) (sym (removed e)) later
  ]
  | inr g ↦
      subst (Elem z) (sym (kept g))
        (elim m [ inl same ↦ inl same | inr later ↦ inr (Elem-remove x z ys later f) ])
]
  where
    removed : (y == x) ≡ true → remove x (y ∷ ys) ≡ ys
    removed e = rw e

    kept : (y == x) ≡ false → remove x (y ∷ ys) ≡ y ∷ remove x ys
    kept g = rw g

-- A list without repetition that lies in one that is not longer has all its members.
pub Distinct-covers :
    (xs ys : List ℕ)
    → Distinct xs
    → ((x : ℕ) → Elem x xs → Elem x ys)
    → length ys ≤ length xs
    → (y : ℕ) → Elem y ys
    → Elem y xs
Distinct-covers [] [] d sub h y m = m
Distinct-covers [] (z ∷ zs) d sub h y m = absurd (omega arith)
Distinct-covers (x ∷ xs) ys (new, d) sub h y m = elim (Bool-cases (y == x)) [
  | inl e ↦ inl ((==_iff y x).0 e)
  | inr f ↦ inr (
      Distinct-covers xs (remove x ys) d inside
        (omega (arith, h, length-remove x ys (sub x (inl refl)))) y (Elem-remove x y ys m f))
]
  where
    inside : (z : ℕ) → Elem z xs → Elem z (remove x ys)
    inside z k = Elem-remove x z ys (sub z (inr k)) (elim (Bool-cases (z == x)) [
      | inl e ↦ absurd (new (subst (λ i. Elem i xs) ((==_iff z x).0 e) k))
      | inr g ↦ g
    ])
