-- ===== src/Json/Ascii.antt =====
-- The casing of ASCII, with which tests run.
use herdres.Prelude.{
  Text, [], all, and-true, arith, if◌then◌else◌, leb, map, refl, true, ℕ, ◌&&◌, ◌+◌, ◌∷◌, ◌≡◌,
}
use herdres.Json.Prune.{Casing, is_small}

abbrev pub small_letter : ℕ → ℕ
small_letter c = if leb b'A' c && leb c b'Z' then c + 32 else c

small_letter-small : (c : ℕ) → is_small c ≡ true → small_letter c ≡ c
small_letter-small c h = ground arith

pub map-small : (t : Text) → all is_small t ≡ true → map small_letter t ≡ t
map-small [] h = refl
map-small (c ∷ cs) h =
    let (a, b) = and-true (is_small c) (all is_small cs) h in
    rw (small_letter-small c a, map-small cs b) refl

instance abbrev pub ascii_casing : Casing
ascii_casing = record { lower = map small_letter; lower_plain = map-small }
