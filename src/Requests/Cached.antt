-- ===== src/Requests/Cached.antt =====
-- About the final answer of a request and later looks at it: `preflight_request` and
-- `cached_terminal_outcome`.
use herdres.Prelude.{Bool, List, Text, all, false, none, refl, some, subst, true, ℕ, ◌≡◌, ◌≤◌}
use herdres.Identity.{valid_request_id}
use herdres.Requests.Preflight.{IsPreflight, preflight_request-IsPreflight}
use herdres.Requests.Record.{CommandCodec}
use herdres.Requests.Shell.{IsValidStore, lookup_in}
use herdres.Requests.Store.{
  Entry, Store, cached_terminal_outcome, ensure_request_shell, is_final, lookup, preflight_request,
  valid_entry,
}
use herdres.Requests.Stored.{lookup-valid}
use herdres.Requests.Types.{Child, Request, returns}
use herdres.Safe.{Unicode}

module _ ⦃u : Unicode⦄ ⦃codec : CommandCodec⦄ where
  cached_final :
      (id : Text) (es : List Entry) (r : Request) (c : Child)
      → valid_request_id id ≡ true
      → all valid_entry es ≡ true
      → lookup id es ≡ some r
      → is_final r.state ≡ true
      → r.outcome ≡ some c
      → cached_terminal_outcome (some es) id ≡ returns (some c)
  unfolding cached_terminal_outcome
  cached_final id es r c i v l f o = let h = lookup-valid id r es v l in rw (i, v, l, h, f, o) refl

  preflight_final :
      (id : Text) (es : List Entry) (r : Request) (c : Child) (now horizon retention : ℕ)
      → valid_request_id id ≡ true
      → all valid_entry es ≡ true
      → lookup id es ≡ some r
      → is_final r.state ≡ true
      → r.outcome ≡ some c
      → preflight_request (some es) id now horizon retention ≡ (returns (r, some c, false), some es)
  unfolding preflight_request ensure_request_shell
  preflight_final id es r c now horizon retention i v l f o =
      let h = lookup-valid id r es v l in rw (i, v, l, h, f, o) refl

  final_later :
      (id : Text) (store : Store) (r : Request) (c : Child) (b : Bool)
      (now later horizon retention : ℕ)
      → valid_request_id id ≡ true
      → IsPreflight now id (returns (r, some c, b), store)
      → (cached_terminal_outcome store id ≡ returns (some c))
        × (preflight_request store id later horizon retention ≡ (returns (r, some c, false), store))
  final_later id none r c b now later horizon retention i (s, l, f, o) = cc
  final_later id (some es) r c b now later horizon retention i (s, l, f, o) = (
    cached_final id es r c i s l f o,
    preflight_final id es r c later horizon retention i s l f o,
  )

  -- Once `preflight_request` has answered a request, the store that it leaves caches that answer, and
  -- at any later time `preflight_request` gives the same record and answer, and changes nothing.
  pub preflight_request-preflight_request :
      (store kept : Store) (id : Text) (now later horizon retention : ℕ) (r : Request) (c : Child)
      (b : Bool)
      → IsValidStore store
      → ((s : Request) → lookup_in id store ≡ some s → s.updated_at ≤ now)
      → valid_request_id id ≡ true
      → preflight_request store id now horizon retention ≡ (returns (r, some c, b), kept)
      → (cached_terminal_outcome kept id ≡ returns (some c))
        × (preflight_request kept id later horizon retention ≡ (returns (r, some c, false), kept))
  preflight_request-preflight_request store kept id now later horizon retention r c b s k i e =
      final_later id kept r c b now later horizon retention i (
        subst (IsPreflight now id) e
          (preflight_request-IsPreflight store id now horizon retention s k))
