-- ===== src/Identity/Check.antt =====
-- About `validate_request_id` and the canonical identities.
use herdres.Prelude.{
  All, List, Option, [], and-true, ap, arith, length, nat_beq_iff, none, refl, some, true, ℕ, ◌++◌,
  ◌∙◌, ◌∷◌, ◌≡◌,
}
use herdres.Identity.{
  check_digest, check_encoded, check_sextets, encode_request_id, from_sextets, map_chars,
  read_chars, request_id_prefix, same_codes, strip_prefix, to_sextets, valid_encoded,
  valid_request_id,
}
use herdres.Identity.Encoding.{
  HasTail, HasTail-of_length, IsBelow, from_sextets-to_sextets, length-map_chars, length-to_sextets,
  read_chars-map_chars, to_sextets-IsBelow,
}

same_codes_refl : (xs : List ℕ) → same_codes xs xs ≡ true
unfolding same_codes
same_codes_refl [] = refl
same_codes_refl (x ∷ xs) = ground (arith, same_codes_refl xs)

same_codes-eq : (xs ys : List ℕ) → same_codes xs ys ≡ true → xs ≡ ys
unfolding same_codes
same_codes-eq [] [] h = refl
same_codes-eq [] (y ∷ ys) h = cc
same_codes-eq (x ∷ xs) [] h = cc
same_codes-eq (x ∷ xs) (y ∷ ys) h = ground (arith, same_codes-eq xs ys)

strip_prefix-append : (xs ys : List ℕ) → strip_prefix xs (xs ++ ys) ≡ some ys
unfolding strip_prefix
strip_prefix-append [] ys = refl
strip_prefix-append (x ∷ xs) ys = ground (arith, strip_prefix-append xs ys)

strip_prefix-some : (xs ys zs : List ℕ) → strip_prefix xs ys ≡ some zs → ys ≡ xs ++ zs
unfolding strip_prefix
strip_prefix-some [] ys zs h = cc
strip_prefix-some (x ∷ xs) [] zs h = cc
strip_prefix-some (x ∷ xs) (y ∷ ys) zs h = ground (arith, strip_prefix-some xs ys zs)

valid_encoded_of_parts :
    (encoded vs digest : List ℕ)
    → length encoded ≡ 43
    → read_chars encoded ≡ some vs
    → from_sextets vs ≡ some digest
    → length digest ≡ 32
    → encoded ≡ map_chars (to_sextets digest)
    → valid_encoded encoded ≡ true
unfolding valid_encoded check_sextets check_digest
valid_encoded_of_parts encoded vs digest n r f d e = rw (n, r, f, d, ← e, same_codes_refl encoded)

module _ (digest : List ℕ) (bytes : All (IsBelow 256) digest) (size : length digest ≡ 32) where
  tail : HasTail digest
  tail = HasTail-of_length 10 digest size

  chars_length : length (map_chars (to_sextets digest)) ≡ 43
  chars_length = omega (arith, length-map_chars (to_sextets digest), length-to_sextets digest tail)

  valid_encoded_of_digest : valid_encoded (map_chars (to_sextets digest)) ≡ true
  valid_encoded_of_digest =
      valid_encoded_of_parts (map_chars (to_sextets digest)) (to_sextets digest) digest chars_length
        (read_chars-map_chars (to_sextets digest) (to_sextets-IsBelow digest bytes))
        (from_sextets-to_sextets digest bytes tail) size refl

  -- The identity made of any 32-byte digest passes the check.
  pub valid_request_id-encode_request_id : valid_request_id (encode_request_id digest) ≡ true
  unfolding encode_request_id valid_request_id
  valid_request_id-encode_request_id = valid_encoded_of_digest

-- What the checks want of an encoded digest.
abbrev IsEncoded : List ℕ → Type 0
IsEncoded encoded =
    (digest : List ℕ) × (encoded ≡ map_chars (to_sextets digest)) × (length digest ≡ 32)

check_digest-IsEncoded :
    (encoded : List ℕ) (o : Option (List ℕ)) → check_digest encoded o ≡ true → IsEncoded encoded
unfolding check_digest
check_digest-IsEncoded encoded none h = cc
check_digest-IsEncoded encoded (some digest) h =
    let (n, same) = and-true _ _ h in
    (digest, same_codes-eq encoded _ same, (nat_beq_iff (length digest) 32).0 n)

check_sextets-IsEncoded :
    (encoded : List ℕ) (o : Option (List ℕ)) → check_sextets encoded o ≡ true → IsEncoded encoded
unfolding check_sextets
check_sextets-IsEncoded encoded none h = cc
check_sextets-IsEncoded encoded (some vs) h = check_digest-IsEncoded encoded (from_sextets vs) h

valid_encoded-IsEncoded : (encoded : List ℕ) → valid_encoded encoded ≡ true → IsEncoded encoded
unfolding valid_encoded
valid_encoded-IsEncoded encoded h =
    let (n, rest) = and-true _ _ h in check_sextets-IsEncoded encoded (read_chars encoded) rest

valid_request_id-encoded :
    (text : List ℕ) (o : Option (List ℕ))
    → strip_prefix request_id_prefix text ≡ o
    → check_encoded o ≡ true
    → (digest : List ℕ) × (text ≡ encode_request_id digest) × (length digest ≡ 32)
unfolding check_encoded encode_request_id
valid_request_id-encoded text none e h = cc
valid_request_id-encoded text (some encoded) e h =
    let (digest, q, n) = valid_encoded-IsEncoded encoded h in
    (
      digest,
      strip_prefix-some request_id_prefix text encoded e
          ∙ ap (λ (t : List ℕ). request_id_prefix ++ t) q,
      n,
    )

-- A text passes the check only if it is the identity of some digest of 32 bytes, spelled in the
-- one canonical way.
pub valid_request_id-canonical :
    (text : List ℕ)
    → valid_request_id text ≡ true
    → (digest : List ℕ) × (text ≡ encode_request_id digest) × (length digest ≡ 32)
unfolding valid_request_id
valid_request_id-canonical text h =
    valid_request_id-encoded text (strip_prefix request_id_prefix text) refl h

-- Different digests have different identities.
pub encode_request_id-injective :
    (d e : List ℕ)
    → All (IsBelow 256) d
    → All (IsBelow 256) e
    → length d ≡ 32
    → length e ≡ 32
    → encode_request_id d ≡ encode_request_id e
    → d ≡ e
unfolding encode_request_id
encode_request_id-injective d e bd be nd ne h =
    let same : map_chars (to_sextets d) ≡ map_chars (to_sextets e) = cc h in
    let sextets : to_sextets d ≡ to_sextets e = cc (
      ap read_chars same,
      read_chars-map_chars (to_sextets d) (to_sextets-IsBelow d bd),
      read_chars-map_chars (to_sextets e) (to_sextets-IsBelow e be),
    ) in
    cc (
      ap from_sextets sextets,
      from_sextets-to_sextets d bd (HasTail-of_length 10 d nd),
      from_sextets-to_sextets e be (HasTail-of_length 10 e ne),
    )
