-- ===== src/Safe/Examples.antt =====
-- Tests of `sanitize_text`, with the classes of ASCII.
use herdres.Prelude.{All-all, Text, arith, codes, refl, ◌++◌, ◌∷◌, ◌≡◌}
use herdres.Safe.{is_printable, is_token_char, redaction, sanitize_text}
use herdres.Safe.Ascii.{ascii, ascii_digit, ascii_space, ascii_word}
use herdres.Safe.Sanitized.{sanitize_text_leak}

redacts_token :
    sanitize_text (codes "bot 123456789:AAAAAAAAAAAAAAAAAAAAAA- ok") 4000
    ≡ codes "bot [redacted-token]- ok"
unfolding sanitize_text ascii_word ascii_digit ascii_space
redacts_token = refl

abbrev leaked : Text
leaked = codes "123456789:AAAAAAAAAAAAAAAAAAAAAA"

sanitize_text_leak_example :
    sanitize_text (codes "123456789" ++ 1 ∷ b':' ∷ codes "AAAAAAAAAAAAAAAAAAAAAA") 4000 ≡ leaked
unfolding ascii_digit ascii_word ascii_space
sanitize_text_leak_example =
    sanitize_text_leak (codes "123456789") 1 (codes "AAAAAAAAAAAAAAAAAAAAAA") 4000
      (All-all ascii.is_digit (codes "123456789") refl)
      (All-all is_printable (codes "123456789") refl) refl refl
      (All-all is_token_char (codes "AAAAAAAAAAAAAAAAAAAAAA") refl) (omega arith)

-- So the function is not idempotent.
sanitize_text_twice : sanitize_text leaked 4000 ≡ redaction
unfolding sanitize_text ascii_word ascii_digit ascii_space
sanitize_text_twice = refl
