-- ===== src/Safe/Sanitized.antt =====
-- About the results of `sanitize_text`.
use herdres.Prelude.{
  All, All-map, Bool, Bool-cases, Text, [], ap, arith, false, inl, inr, length, nat_beq_iff, nat_eq,
  none, refl, string_eq, suc, text_eq, true, zero, ℕ, ◌&&◌, ◌++◌, ◌==◌, ◌∷◌, ◌≡◌, ◌≤◌,
}
use herdres.Safe.{
  Unicode, cut, is_printable, is_token_char, printable, redact, sanitize_text, secret_length,
}

length-cut : (n : ℕ) (cs : Text) → length (cut n cs) ≤ n
length-cut zero cs = omega arith
length-cut (suc n) [] = omega arith
length-cut (suc n) (c ∷ cs) = omega (arith, length-cut n cs)

abbrev pub IsPrintable : ℕ → Type 0
IsPrintable c = is_printable c ≡ true

All-cut : (n : ℕ) (cs : Text) → All IsPrintable cs → All IsPrintable (cut n cs)
All-cut zero cs a = tt
All-cut (suc n) [] a = tt
All-cut (suc n) (c ∷ cs) a = (a.0, All-cut n cs a.1)

printable-IsPrintable : (cs : Text) → All IsPrintable (printable cs)
unfolding printable
printable-IsPrintable [] = tt
printable-IsPrintable (c ∷ cs) = elim (Bool-cases (is_printable c)) [
  | inl h ↦ rw h (h, printable-IsPrintable cs)
  | inr h ↦ rw h (printable-IsPrintable cs)
]

-- A text that is printable passes the filter as it is.
printable_id : (cs : Text) → All IsPrintable cs → printable cs ≡ cs
unfolding printable
printable_id [] a = refl
printable_id (c ∷ cs) a = rw a.0 (ap (λ (t : Text). c ∷ t) (printable_id cs a.1))

cut_id : (n : ℕ) (cs : Text) → length cs ≤ n → cut n cs ≡ cs
cut_id zero [] h = refl
cut_id zero (c ∷ cs) h = elim h [ ]
cut_id (suc n) [] h = refl
cut_id (suc n) (c ∷ cs) h = ap (λ (t : Text). c ∷ t) (cut_id n cs (omega arith))

module _ ⦃u : Unicode⦄ where
  -- The result is no longer than the limit and has no control character but the line feed and the
  -- tab.
  pub sanitize_text_bounds :
      (text : Text) (limit : ℕ)
      → (length (sanitize_text text limit) ≤ limit) × All IsPrintable (sanitize_text text limit)
  unfolding sanitize_text
  sanitize_text_bounds text limit = (
    length-cut limit (printable (redact 0 false text)),
    All-cut limit (printable (redact 0 false text)) (printable-IsPrintable (redact 0 false text)),
  )

  -- No digit stands directly before a colon.
  abbrev pub NoKeyColon : Text → Type 0
  NoKeyColon [] = Unit
  NoKeyColon (c ∷ []) = Unit
  NoKeyColon (c ∷ d ∷ cs) = ((u.is_digit c && (d == b':')) ≡ false) × NoKeyColon (d ∷ cs)

  secret_length-NoKeyColon :
      (n : ℕ) (c : ℕ) (cs : Text)
      → u.is_digit c ≡ true
      → NoKeyColon (c ∷ cs)
      → secret_length n (c ∷ cs) ≡ none
  unfolding secret_length
  secret_length-NoKeyColon n c [] h k = rw h
  secret_length-NoKeyColon n c (d ∷ cs) h k = elim (Bool-cases (u.is_digit d)) [
    | inl e ↦ rw h (secret_length-NoKeyColon (suc n) d cs e k.1)
    | inr e ↦ let q : (d == b':') ≡ false = rw h at k.0 in rw (h, e) (rw q)
  ]

  secret_length_other : (c : ℕ) (cs : Text) → u.is_digit c ≡ false → secret_length 0 (c ∷ cs) ≡ none
  unfolding secret_length
  secret_length_other c cs h = rw h (ground arith)

  secret_length-none : (c : ℕ) (cs : Text) → NoKeyColon (c ∷ cs) → secret_length 0 (c ∷ cs) ≡ none
  secret_length-none c cs k = elim (Bool-cases (u.is_digit c)) [
    | inl h ↦ secret_length-NoKeyColon 0 c cs h k
    | inr h ↦ secret_length_other c cs h
  ]

  NoKeyColon-tail : (c : ℕ) (cs : Text) → NoKeyColon (c ∷ cs) → NoKeyColon cs
  NoKeyColon-tail c [] k = tt
  NoKeyColon-tail c (d ∷ cs) k = k.1

  redact-NoKeyColon : (before : Bool) (cs : Text) → NoKeyColon cs → redact 0 before cs ≡ cs
  unfolding redact
  redact-NoKeyColon before [] k = refl
  redact-NoKeyColon before (c ∷ cs) k = ground (
    arith,
    secret_length-none c cs k,
    redact-NoKeyColon (u.is_word c) cs (NoKeyColon-tail c cs k),
  )

  -- A printable text in which no digit stands directly before a colon is kept up to the limit.
  pub sanitize_text_kept :
      (text : Text) (limit : ℕ)
      → NoKeyColon text
      → All IsPrintable text
      → length text ≤ limit
      → sanitize_text text limit ≡ text
  unfolding sanitize_text
  sanitize_text_kept text limit k p n =
      rw (redact-NoKeyColon false text k, printable_id text p) (cut_id limit text n)

  NoKeyColon-token :
      (before : ℕ) (tok : Text) → All (λ c. is_token_char c ≡ true) tok → NoKeyColon (before ∷ tok)
  NoKeyColon-token before [] a = tt
  NoKeyColon-token before (c ∷ tok) a = (ground arith, NoKeyColon-token c tok a.1)

  digit_no_colon : (b : Bool) (x : ℕ) → u.is_digit x ≡ true → (b && (x == b':')) ≡ false
  digit_no_colon b x q = elim (Bool-cases (x == b':')) [
    | inl e ↦ let r : x ≡ b':' = (nat_beq_iff x b':').0 e in cc (rw r at q, u.colon_no_digit)
    | inr e ↦ rw e (ground arith)
  ]

  NoKeyColon-digits :
      (ds : Text) (c : ℕ) (tok : Text)
      → All (λ d. u.is_digit d ≡ true) ds
      → is_printable c ≡ false
      → u.is_digit c ≡ false
      → All (λ d. is_token_char d ≡ true) tok
      → NoKeyColon (ds ++ c ∷ b':' ∷ tok)
  NoKeyColon-digits [] c tok a p h t = (ground arith, NoKeyColon-token b':' tok t)
  NoKeyColon-digits (d ∷ []) c tok a p h t = (ground arith, NoKeyColon-digits [] c tok tt p h t)
  NoKeyColon-digits (d ∷ e ∷ ds) c tok a p h t =
      (digit_no_colon (u.is_digit d) e a.1.0, NoKeyColon-digits (e ∷ ds) c tok a.1 p h t)

  All-without :
      (ds : Text) (c : ℕ) (tok : Text)
      → All IsPrintable ds
      → is_printable c ≡ false
      → All (λ d. is_token_char d ≡ true) tok
      → printable (ds ++ c ∷ b':' ∷ tok) ≡ ds ++ b':' ∷ tok
  unfolding printable
  All-without [] c tok a p t =
      rw (p, printable_id tok (All-map _ IsPrintable token_printable tok t))
    where
      token_printable : (d : ℕ) → is_token_char d ≡ true → IsPrintable d
      token_printable d h = ground arith
  All-without (d ∷ ds) c tok a p t = rw (a.0, All-without ds c tok a.1 p t)

  -- A control character between the number and the colon of a bot token hides the token from the
  -- redaction, and is itself removed after it: the token comes out whole.
  pub sanitize_text_leak :
      (ds : Text) (c : ℕ) (tok : Text) (limit : ℕ)
      → All (λ d. u.is_digit d ≡ true) ds
      → All IsPrintable ds
      → is_printable c ≡ false
      → u.is_digit c ≡ false
      → All (λ d. is_token_char d ≡ true) tok
      → length (ds ++ b':' ∷ tok) ≤ limit
      → sanitize_text (ds ++ c ∷ b':' ∷ tok) limit ≡ ds ++ b':' ∷ tok
  unfolding sanitize_text
  sanitize_text_leak ds c tok limit a p q h t n =
      rw
        (
          redact-NoKeyColon false (ds ++ c ∷ b':' ∷ tok) (NoKeyColon-digits ds c tok a q h t),
          All-without ds c tok p q t,
        )
        (cut_id limit (ds ++ b':' ∷ tok) n)
