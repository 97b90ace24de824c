-- ===== src/Auth/Minter.antt =====
-- src/auth/auth-token-minter.service.ts as a machine: calls of `mintToken` at a time, and the
-- replies of the authentication service. A request is known by its cache key.
mod Entries
pub mod Laws
pub mod Provenance
unfoldable pub use Entries.*
use examples_service.Common.{
  ℕ, ◌+◌, ◌*◌, max, String, ◌<>◌, Bool, true, false, not, Option, none, some,
}
use examples_service.Common.{List, [], ◌∷◌, ◌++◌, ◌==◌, string_eq, leb, if◌then◌else◌}
use examples_service.Common.Dict.{Dict, lookup, insert, erase}
use examples_service.Common.Text.{truthy, show_ℕ}
use examples_service.Js.{Value, str, num, obj, Fields, end, field, get, undefined, is_truthy}
use examples_service.Errors.{
  AppException, Result, ok, err, app_exception, auth_mint_failed, bad_gateway,
}
use examples_service.Auth.Scopes.{cache_key}

module _ (config : Config) where
  -- The part of `requestToken` before `fetch` ends: without an address nothing is sent.
  abbrev pub request_token : String → String → Option Fields → State → State
  request_token key sender scopes s =
      if truthy config.auth_service_url
      then record s {
        sent =
            s.sent
            ++ ((
              without_slashes config.auth_service_url <> "/tokens",
              key,
              record {
                sender = sender;
                scopes = scopes;
                ttl_seconds = config.auth_token_ttl_seconds;
              },
            )
                ∷ []);
      }
      else s

  -- `inflight.get(key)`, or a new request.
  abbrev pub join_or_request :
      String → String → Option Fields → Option Request → State → State × Answer
  join_or_request key sender scopes (some request) s = (s, promised key)
  join_or_request key sender scopes none s =
      let t = request_token key sender scopes s in
      (
        record t { inflight = insert key (record { sender = sender; scopes = scopes }) t.inflight },
        promised key,
      )

  abbrev pub mint_from :
      String → String → Option Fields → State × Option CacheEntry → State × Answer
  mint_from key sender scopes (s, some entry) = (
    s,
    cached (record {
      token = entry.token;
      sender = sender;
      expires_at = entry.expires_at;
      expires_in_seconds = entry.expires_in_seconds;
      cache_outcome = hit;
    }),
  )
  mint_from key sender scopes (s, none) =
      join_or_request key sender scopes (lookup key s.inflight) s

  unfoldable pub mint_token : ℕ → String → Option Fields → State → State × Answer
  mint_token now sender scopes s =
      if truthy sender
      then (let key = cache_key sender scopes in mint_from key sender scopes (read_cache now key s))
      else (
        s,
        thrown (app_exception auth_mint_failed "mintToken requires a non-empty sender" bad_gateway),
      )

  -- `Math.max(1, Math.floor(…))`, or the configured time.
  abbrev pub ttl_of : Option ℕ → ℕ
  ttl_of none = config.auth_token_ttl_seconds
  ttl_of (some n) = max 1 n

  abbrev pub with_token : ℕ → String → Option ℕ → Value → Result MintedToken
  with_token now sender seconds (str token) =
      if truthy token
      then ok (record {
        token = token;
        sender = sender;
        expires_at = now + ttl_of seconds * 1000;
        expires_in_seconds = ttl_of seconds;
        cache_outcome = miss;
      })
      else mint_failed "auth-service response missing token"
  with_token now sender seconds v = mint_failed "auth-service response missing token"

  abbrev pub from_reply : ℕ → String → Reply → Result MintedToken
  from_reply now sender (network reason) = mint_failed ("auth-service request failed: " <> reason)
  from_reply now sender (http status) = err (record {
    error_code = auth_mint_failed;
    message = "auth-service returned " <> show_ℕ status;
    http_status = bad_gateway;
    metadata = some (field "status" (num (show_ℕ status)) end);
  })
  from_reply now sender (bad_json reason) =
      mint_failed ("auth-service response parse failed: " <> reason)
  from_reply now sender (body v seconds) = with_token now sender seconds (token_of v)

  -- What the promise of `requestToken` becomes.
  unfoldable pub minted : ℕ → String → Reply → Result MintedToken
  minted now sender reply =
      if truthy config.auth_service_url
      then from_reply now sender reply
      else mint_failed "MACP_AUTH_SERVICE_URL is not configured; cannot mint tokens"

  -- The end of the request of a key, with the callback of `finally`.
  abbrev pub end_request : ℕ → String → Reply → Option Request → State → State
  end_request now key reply none s = s
  end_request now key reply (some request) s =
      let t = store key (minted now request.sender reply) s in
      record t { inflight = erase key t.inflight }

  unfoldable pub step : Event → State → State
  step (mint now sender scopes) s = (mint_token now sender scopes s).0
  step (replied now key reply) s = end_request now key reply (lookup key s.inflight) s

  -- The state after a history, whose latest event stands first.
  unfoldable pub after : List Event → State
  after [] = initial
  after (e ∷ history) = step e (after history)
