-- ===== src/Json/Examples.antt =====
-- `public_prune` at a small value.
use herdres.Prelude.{codes, refl, ◌≡◌}
use herdres.Json.Ascii.{ascii_casing}
use herdres.Json.Clean.{IsClean, IsClean-public_prune}
use herdres.Json.Prune.{is_forbidden, public_prune}
use herdres.Json.Values.{Json, item, member, no_items, no_members}
use herdres.Safe.Ascii.{ascii}

abbrev nested : Json
nested = Json.array (
    item
      (Json.object (
        member (codes "Bot_Token") (Json.string (codes "x"))
          (member (codes "id") Json.null no_members)))
      no_items)

nested_pruned :
    public_prune nested
    ≡ Json.array (item (Json.object (member (codes "id") Json.null no_members)) no_items)
unfolding public_prune is_forbidden
nested_pruned = refl

IsClean-public_prune_example : IsClean (public_prune nested)
IsClean-public_prune_example = IsClean-public_prune nested
