-- ===== src/Prelude/Texts.antt =====
-- Texts that the program looks into, as lists of code points.
use Prim.Native.Nat.{ℕ}
use mathlib.Core.Path.{◌≡◌, refl}
use mathlib.Core.Bool.{Bool, true, false, ◌&&◌}
use mathlib.Core.List.{List, [], ◌∷◌}
use native.Mathlib.Omega.{arith}
use herdres.Prelude.Tests.{Comparable, nat_eq, ◌==◌}

abbrev pub Text : Type 0
Text = List ℕ

abbrev pub same_text : Text → Text → Bool
same_text [] [] = true
same_text [] (y ∷ ys) = false
same_text (x ∷ xs) [] = false
same_text (x ∷ xs) (y ∷ ys) = (x == y) && same_text xs ys

pub same_text_refl : (xs : Text) → same_text xs xs ≡ true
same_text_refl [] = refl
same_text_refl (x ∷ xs) = ground (arith, same_text_refl xs)

pub same_text-eq : (xs ys : Text) → same_text xs ys ≡ true → xs ≡ ys
same_text-eq [] [] h = refl
same_text-eq [] (y ∷ ys) h = cc
same_text-eq (x ∷ xs) [] h = cc
same_text-eq (x ∷ xs) (y ∷ ys) h = ground (arith, same_text-eq xs ys)

pub same_text_of_eq : (xs ys : Text) → xs ≡ ys → same_text xs ys ≡ true
same_text_of_eq xs ys e = rw e (same_text_refl ys)

instance abbrev pub text_eq : Comparable Text
text_eq = record { same = same_text; same_iff = λ x y. (same_text-eq x y, same_text_of_eq x y) }
