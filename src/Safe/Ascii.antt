-- ===== src/Safe/Ascii.antt =====
-- The character classes of ASCII, with which tests run.
use herdres.Prelude.{
  Bool, arith, false, leb, nat_eq, refl, string_eq, text_eq, true, ℕ, ◌&&◌, ◌==◌, ◌||◌, ◌≡◌,
}
use herdres.Safe.{Unicode}

unfoldable pub ascii_digit : ℕ → Bool
ascii_digit c = leb b'0' c && leb c b'9'

unfoldable pub ascii_word : ℕ → Bool
unfolding ascii_digit
ascii_word c =
    ascii_digit c || (leb b'a' c && leb c b'z') || (leb b'A' c && leb c b'Z') || (c == b'_')

unfoldable pub ascii_space : ℕ → Bool
ascii_space c = (leb 9 c && leb c 13) || (leb 28 c && leb c 32)

pub ascii_digit_word : (c : ℕ) → ascii_digit c ≡ true → ascii_word c ≡ true
unfolding ascii_word
ascii_digit_word c h = ground arith

pub ascii_colon : ascii_digit b':' ≡ false
unfolding ascii_digit
ascii_colon = refl

instance abbrev pub ascii : Unicode
ascii = record {
  is_digit = ascii_digit;
  is_word = ascii_word;
  is_space = ascii_space;
  digit_word = ascii_digit_word;
  colon_no_digit = ascii_colon;
}
