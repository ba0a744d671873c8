-- ===== src/Json/Clean.antt =====
-- About `public_prune`.
use herdres.Prelude.{Bool, Text, false, refl, true, ◌≡◌}
use herdres.Json.Prune.{
  Casing, is_forbidden, prune_items, prune_member, prune_members, public_prune,
}
use herdres.Json.Values.{Items, Json, Members, item, member, no_items, no_members}
use herdres.Safe.{Unicode}

module _ ⦃u : Unicode⦄ ⦃casing : Casing⦄ where
  -- No dictionary in the value, however deep, has a key that is forbidden.
  unfoldable mutual
    pub IsClean : Json → Type 0
    IsClean (Json.array vs) = AreClean vs
    IsClean (Json.object ms) = CleanMembers ms
    IsClean _ = Unit

    pub AreClean : Items → Type 0
    AreClean no_items = Unit
    AreClean (item v vs) = IsClean v × AreClean vs

    pub CleanMembers : Members → Type 0
    CleanMembers no_members = Unit
    CleanMembers (member k v ms) = (is_forbidden k ≡ false) × IsClean v × CleanMembers ms

  CleanMembers-prune_member :
      (b : Bool) (k : Text) (v : Json) (ms : Members)
      → is_forbidden k ≡ b
      → IsClean v
      → CleanMembers ms
      → CleanMembers (prune_member b k v ms)
  unfolding CleanMembers
  CleanMembers-prune_member true k v ms e c d = d
  CleanMembers-prune_member false k v ms e c d = (e, c, d)

  mutual
    unfolding public_prune prune_items prune_members IsClean AreClean CleanMembers

    pub public_prune-IsClean : (v : Json) → IsClean (public_prune v)
    public_prune-IsClean Json.null = tt
    public_prune-IsClean (Json.boolean b) = tt
    public_prune-IsClean (Json.integer s n) = tt
    public_prune-IsClean (Json.string t) = tt
    public_prune-IsClean (Json.array vs) = prune_items-AreClean vs
    public_prune-IsClean (Json.object ms) = prune_members-CleanMembers ms

    prune_items-AreClean : (vs : Items) → AreClean (prune_items vs)
    prune_items-AreClean no_items = tt
    prune_items-AreClean (item v vs) = (public_prune-IsClean v, prune_items-AreClean vs)

    prune_members-CleanMembers : (ms : Members) → CleanMembers (prune_members ms)
    prune_members-CleanMembers no_members = tt
    prune_members-CleanMembers (member k v ms) =
        CleanMembers-prune_member (is_forbidden k) k (public_prune v) (prune_members ms) refl
          (public_prune-IsClean v) (prune_members-CleanMembers ms)

  -- What `public_prune` gives has no forbidden key in any dictionary, however deep, whatever the
  -- casing of letters is.
  pub IsClean-public_prune : (v : Json) → IsClean (public_prune v)
  IsClean-public_prune v = public_prune-IsClean v
