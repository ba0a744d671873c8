-- ===== src/Identity/Encoding.antt =====
-- About the base64url spelling of a digest and its reading.
use herdres.Prelude.{
  All, Bool, Bool-cases, List, Option, [], ap, arith, holds, inl, inr, length, nat_beq_iff, nat_eq,
  none, refl, some, string_eq, suc, true, zero, ℕ, ◌&&◌, ◌*◌, ◌+◌, ◌<◌, ◌==◌, ◌∷◌, ◌≡◌,
}
use herdres.Identity.{char_sextet, from_sextets, map_chars, read_chars, sextet_char, to_sextets}

sextet_table : ℕ → Bool
unfolding char_sextet sextet_char
sextet_table zero = true
sextet_table (suc n) = holds (λ v. v == n) (char_sextet (sextet_char n)) && sextet_table n

sextet_table_lem :
    (n v : ℕ)
    → sextet_table n ≡ true
    → v < n
    → holds (λ u. u == v) (char_sextet (sextet_char v)) ≡ true
unfolding sextet_table
sextet_table_lem zero v h l = absurd (omega arith)
sextet_table_lem (suc n) v h l = elim (Bool-cases (v == n)) [
  | inl e ↦ let q : v ≡ n = (nat_beq_iff v n).0 e in rw q (ground arith)
  | inr e ↦ sextet_table_lem n v (ground arith) (ground arith)
]

sextet_table_all : sextet_table 64 ≡ true
unfolding sextet_table
sextet_table_all = refl

holds_eq : (v : ℕ) (o : Option ℕ) → holds (λ u. u == v) o ≡ true → o ≡ some v
holds_eq v none h = cc
holds_eq v (some u) h = ap some ((nat_beq_iff u v).0 h)

pub char_sextet-sextet_char : (v : ℕ) → v < 64 → char_sextet (sextet_char v) ≡ some v
char_sextet-sextet_char v h = holds_eq v _ (sextet_table_lem 64 v sextet_table_all h)

abbrev pub IsBelow : ℕ → ℕ → Type 0
IsBelow n v = v < n

pub read_chars-map_chars : (vs : List ℕ) → All (IsBelow 64) vs → read_chars (map_chars vs) ≡ some vs
unfolding read_chars map_chars
read_chars-map_chars [] a = refl
read_chars-map_chars (v ∷ vs) a =
    ground (arith, char_sextet-sextet_char v a.0, read_chars-map_chars vs a.1)

pub to_sextets-IsBelow : (bs : List ℕ) → All (IsBelow 256) bs → All (IsBelow 64) (to_sextets bs)
unfolding to_sextets
to_sextets-IsBelow [] h = tt
to_sextets-IsBelow (a ∷ []) h = omega arith
to_sextets-IsBelow (a ∷ b ∷ []) h = omega arith
to_sextets-IsBelow (a ∷ b ∷ c ∷ bs) h =
    (omega arith, (omega arith, (omega arith, (omega arith, to_sextets-IsBelow bs h.1.1.1))))

-- Two bytes more than a multiple of three.
abbrev pub HasTail : List ℕ → Type 0
HasTail [] = ⊥
HasTail (a ∷ []) = ⊥
HasTail (a ∷ b ∷ []) = Unit
HasTail (a ∷ b ∷ c ∷ bs) = HasTail bs

pub from_sextets-to_sextets :
    (bs : List ℕ) → All (IsBelow 256) bs → HasTail bs → from_sextets (to_sextets bs) ≡ some bs
unfolding from_sextets to_sextets
from_sextets-to_sextets [] h t = absurd t
from_sextets-to_sextets (a ∷ []) h t = absurd t
from_sextets-to_sextets (a ∷ b ∷ []) h t = ground arith
from_sextets-to_sextets (a ∷ b ∷ c ∷ bs) h t =
    rw (from_sextets-to_sextets bs h.1.1.1 t) (ground arith)

pub length-map_chars : (vs : List ℕ) → length (map_chars vs) ≡ length vs
unfolding map_chars
length-map_chars [] = refl
length-map_chars (v ∷ vs) = ap suc (length-map_chars vs)

pub length-to_sextets : (bs : List ℕ) → HasTail bs → length (to_sextets bs) * 3 ≡ length bs * 4 + 1
unfolding to_sextets
length-to_sextets [] t = absurd t
length-to_sextets (a ∷ []) t = absurd t
length-to_sextets (a ∷ b ∷ []) t = refl
length-to_sextets (a ∷ b ∷ c ∷ bs) t = omega (arith, length-to_sextets bs t)

pub HasTail-of_length : (k : ℕ) (bs : List ℕ) → length bs ≡ k * 3 + 2 → HasTail bs
HasTail-of_length zero [] h = absurd (omega arith)
HasTail-of_length zero (a ∷ []) h = absurd (omega arith)
HasTail-of_length zero (a ∷ b ∷ []) h = tt
HasTail-of_length zero (a ∷ b ∷ c ∷ bs) h = absurd (omega arith)
HasTail-of_length (suc k) [] h = absurd (omega arith)
HasTail-of_length (suc k) (a ∷ []) h = absurd (omega arith)
HasTail-of_length (suc k) (a ∷ b ∷ []) h = absurd (omega arith)
HasTail-of_length (suc k) (a ∷ b ∷ c ∷ bs) h = HasTail-of_length k bs (omega arith)
