-- ===== src/Json/Values.antt =====
-- JSON values. A dictionary is the list of its members; `json.loads` gives no key twice.
use herdres.Prelude.{
  Bool, List, Text, [], false, if◌then◌else◌, nat_eq, not, string_eq, text_eq, true, ℕ, ◌&&◌, ◌==◌,
  ◌||◌, ◌∷◌,
}

mutual
  pub data Json : Type 0 where
    null : Json
    boolean : Bool → Json
    -- Whether it is negative, and its magnitude.
    integer : Bool → ℕ → Json
    string : Text → Json
    array : Items → Json
    object : Members → Json

  pub data Items : Type 0 where
    no_items : Items
    item : Json → Items → Items

  pub data Members : Type 0 where
    no_members : Members
    member : Text → Json → Members → Members

abbrev pub one_of : Text → List Text → Bool
one_of t [] = false
one_of t (a ∷ texts) = t == a || one_of t texts

-- `value.get(key)`: a key that is absent gives `None`, as a null does.
abbrev pub get : Text → Members → Json
get k no_members = Json.null
get k (member l v ms) = let rest = get k ms in if l == k then v else rest

abbrev pub has_key : Text → Members → Bool
has_key k no_members = false
has_key k (member l v ms) = l == k || has_key k ms

-- `set(value) <= fields`
abbrev pub keys_among : List Text → Members → Bool
keys_among fields no_members = true
keys_among fields (member k v ms) = one_of k fields && keys_among fields ms

-- `fields <= set(value)`
abbrev pub has_keys : List Text → Members → Bool
has_keys [] ms = true
has_keys (k ∷ ks) ms = has_key k ms && has_keys ks ms

-- `set(value) == fields`
abbrev pub exact_keys : List Text → Members → Bool
exact_keys fields ms = has_keys fields ms && keys_among fields ms

abbrev pub is_null : Json → Bool
is_null Json.null = true
is_null _ = false

abbrev pub is_string : Json → Bool
is_string (Json.string t) = true
is_string _ = false

abbrev pub is_object : Json → Bool
is_object (Json.object ms) = true
is_object _ = false

-- `value == text`
abbrev pub equals_text : Text → Json → Bool
equals_text t (Json.string s) = s == t
equals_text t _ = false

-- `value is b`
abbrev pub is_boolean : Bool → Json → Bool
is_boolean true (Json.boolean b) = b
is_boolean false (Json.boolean b) = not b
is_boolean b _ = false

-- `type(value) is int and value == n`
abbrev pub is_integer : ℕ → Json → Bool
is_integer n (Json.integer false m) = m == n
is_integer n _ = false

-- The members of a dictionary, none of any other value.
abbrev pub members_of : Json → Members
members_of (Json.object ms) = ms
members_of _ = no_members

-- `isinstance(value, str) and value`
abbrev pub nonempty_string : Json → Bool
nonempty_string (Json.string (c ∷ cs)) = true
nonempty_string _ = false

abbrev pub all_strings : Items → Bool
all_strings no_items = true
all_strings (item v vs) = is_string v && all_strings vs

-- `isinstance(value, list)` of strings
abbrev pub is_strings : Json → Bool
is_strings (Json.array vs) = all_strings vs
is_strings _ = false
