-- ===== src/Json/Same.antt =====
-- The equality of JSON values. Dictionaries are compared in the order of their members, which is
-- all that a comparison with a pruned copy needs.
use herdres.Prelude.{
  Bool, and-true, ap, arith, false, nat_beq_iff, nat_eq, not, refl, same_text-eq, string_eq, sym,
  text_eq, true, ◌&&◌, ◌==◌, ◌≡◌,
}
use herdres.Json.Values.{Items, Json, Members, item, member, no_items, no_members}

abbrev pub same_bool : Bool → Bool → Bool
same_bool true b = b
same_bool false b = not b

unfoldable mutual
  pub same_json : Json → Json → Bool
  same_json Json.null Json.null = true
  same_json (Json.boolean a) (Json.boolean b) = same_bool a b
  same_json (Json.integer s a) (Json.integer t b) = same_bool s t && a == b
  same_json (Json.string a) (Json.string b) = a == b
  same_json (Json.array a) (Json.array b) = same_items a b
  same_json (Json.object a) (Json.object b) = same_members a b
  same_json _ _ = false

  pub same_items : Items → Items → Bool
  same_items no_items no_items = true
  same_items (item v vs) (item w ws) = same_json v w && same_items vs ws
  same_items _ _ = false

  pub same_members : Members → Members → Bool
  same_members no_members no_members = true
  same_members (member k v ms) (member l w ns) = k == l && same_json v w && same_members ms ns
  same_members _ _ = false

same_bool-eq : (a b : Bool) → same_bool a b ≡ true → a ≡ b
same_bool-eq true b h = sym h
same_bool-eq false b h = ground arith

mutual
  unfolding same_json same_items same_members

  same_json-eq : (a b : Json) → same_json a b ≡ true → a ≡ b
  same_json-eq Json.null b h =
      elim b as (λ b. same_json Json.null b ≡ true → Json.null ≡ b) [
        | Json.null ↦ λ h. refl
        | _ ↦ λ h. cc
      ]
        h
  same_json-eq (Json.boolean x) b h =
      elim b as (λ b. same_json (Json.boolean x) b ≡ true → Json.boolean x ≡ b) [
        | Json.boolean y ↦ λ h. ap Json.boolean (same_bool-eq x y h)
        | _ ↦ λ h. cc
      ]
        h
  same_json-eq (Json.integer s n) b h =
      elim b as (λ b. same_json (Json.integer s n) b ≡ true → Json.integer s n ≡ b) [
        | Json.integer t m ↦ λ h.
            let (p, q) = and-true (same_bool s t) (n == m) h in
            rw (same_bool-eq s t p, (nat_beq_iff n m).0 q) refl
        | _ ↦ λ h. cc
      ]
        h
  same_json-eq (Json.string x) b h =
      elim b as (λ b. same_json (Json.string x) b ≡ true → Json.string x ≡ b) [
        | Json.string y ↦ λ h. ap Json.string (same_text-eq x y h)
        | _ ↦ λ h. cc
      ]
        h
  same_json-eq (Json.array vs) b h =
      elim b as (λ b. same_json (Json.array vs) b ≡ true → Json.array vs ≡ b) [
        | Json.array ws ↦ λ h. ap Json.array (same_items-eq vs ws h)
        | _ ↦ λ h. cc
      ]
        h
  same_json-eq (Json.object ms) b h =
      elim b as (λ b. same_json (Json.object ms) b ≡ true → Json.object ms ≡ b) [
        | Json.object ns ↦ λ h. ap Json.object (same_members-eq ms ns h)
        | _ ↦ λ h. cc
      ]
        h

  same_items-eq : (a b : Items) → same_items a b ≡ true → a ≡ b
  same_items-eq no_items no_items h = refl
  same_items-eq no_items (item w ws) h = cc
  same_items-eq (item v vs) no_items h = cc
  same_items-eq (item v vs) (item w ws) h =
      let (p, q) = and-true (same_json v w) (same_items vs ws) h in
      rw (same_json-eq v w p, same_items-eq vs ws q) refl

  same_members-eq : (a b : Members) → same_members a b ≡ true → a ≡ b
  same_members-eq no_members no_members h = refl
  same_members-eq no_members (member l w ns) h = cc
  same_members-eq (member k v ms) no_members h = cc
  same_members-eq (member k v ms) (member l w ns) h =
      let (p, q) = and-true (k == l && same_json v w) (same_members ms ns) h in
      let (a, b) = and-true (k == l) (same_json v w) p in
      rw (same_text-eq k l a, same_json-eq v w b, same_members-eq ms ns q) refl

-- Values that pass the comparison are the same.
pub same_json_lem : (a b : Json) → same_json a b ≡ true → a ≡ b
same_json_lem a b h = same_json-eq a b h
