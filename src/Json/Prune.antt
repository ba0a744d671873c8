-- ===== src/Json/Prune.antt =====
-- `public_prune` of herdres_connector/safe.py.
use herdres.Prelude.{
  Bool, List, Text, [], all, codes, false, leb, nat_eq, string_eq, text_eq, true, ℕ, ◌&&◌, ◌==◌,
  ◌||◌, ◌∷◌, ◌≡◌,
}
use herdres.Chunks.Boundary.{starts_with}
use herdres.Json.Values.{Items, Json, Members, item, member, no_items, no_members, one_of}
use herdres.Safe.{Unicode, sanitize_text}

-- [a-z_]
abbrev pub is_small : ℕ → Bool
is_small c = (leb b'a' c && leb c b'z') || c == b'_'

-- `str.lower`. What the program relies on: the capital letters of ASCII become small ones, and
-- the small ones and the underscore stay.
pub record Casing : Type 0 where
  pub lower : Text → Text
  pub lower_plain : (t : Text) → all is_small t ≡ true → lower t ≡ t

-- FORBIDDEN_PUBLIC_KEYS
abbrev pub forbidden_public_keys : List Text
forbidden_public_keys =
    codes "argv"
    ∷ codes "backend_target"
    ∷ codes "bot_token"
    ∷ codes "chat_id"
    ∷ codes "env"
    ∷ codes "message_id"
    ∷ codes "pane_id"
    ∷ codes "private_fingerprint"
    ∷ codes "socket_path"
    ∷ codes "stderr"
    ∷ codes "stdout"
    ∷ codes "target_value"
    ∷ codes "terminal_id"
    ∷ codes "token"
    ∷ codes "topic_id"
    ∷ []

-- `needle in text`
abbrev pub contains : Text → Text → Bool
contains needle [] = starts_with needle []
contains needle (c ∷ cs) = starts_with needle (c ∷ cs) || contains needle cs

-- `continue` at a forbidden key.
abbrev pub prune_member : Bool → Text → Json → Members → Members
prune_member true k v ms = ms
prune_member false k v ms = member k v ms

module _ ⦃u : Unicode⦄ ⦃casing : Casing⦄ where
  -- The keys that `public_prune` drops.
  unfoldable pub is_forbidden : Text → Bool
  is_forbidden key =
      one_of key forbidden_public_keys
      || contains (codes "token") (casing.lower key)
      || contains (codes "secret") (casing.lower key)

  unfoldable mutual
    pub public_prune : Json → Json
    public_prune Json.null = Json.null
    public_prune (Json.boolean b) = Json.boolean b
    public_prune (Json.integer s n) = Json.integer s n
    public_prune (Json.string t) = Json.string (sanitize_text t 64000)
    public_prune (Json.array vs) = Json.array (prune_items vs)
    public_prune (Json.object ms) = Json.object (prune_members ms)

    pub prune_items : Items → Items
    prune_items no_items = no_items
    prune_items (item v vs) = item (public_prune v) (prune_items vs)

    pub prune_members : Members → Members
    prune_members no_members = no_members
    prune_members (member k v ms) =
        prune_member (is_forbidden k) k (public_prune v) (prune_members ms)
