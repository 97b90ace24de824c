-- ===== src/Auth/Minter/Provenance/Delivered.antt =====
-- What a reply has brought into the cache.
use examples_service.Common.{ℕ, ◌≡◌, String}
use examples_service.Common.{some, List, ◌∷◌, ◌++◌, string_eq}
use examples_service.Common.Dict.{lookup}
use examples_service.Errors.{ok}
use examples_service.Auth.Minter.{Config, CacheEntry, MintedToken, Reply, Request}
use examples_service.Auth.Minter.{Event, replied}
use examples_service.Auth.Minter.{minted, after}

-- A reply of the history answered the open request of the key with the token of the entry.
pub record IsDelivered (config : Config) (key : String) (entry : CacheEntry) (history : List Event)
    : Type 0 where
  pub since : List Event
  pub before : List Event
  pub at : ℕ
  pub reply : Reply
  pub request : Request
  pub answer : MintedToken
  pub split : history ≡ since ++ replied at key reply ∷ before
  pub open_then : lookup key (after config before).inflight ≡ some request
  pub answered : minted config at request.sender reply ≡ ok answer
  pub stored : entry ≡ record {
    token = answer.token;
    expires_at = answer.expires_at;
    expires_in_seconds = answer.expires_in_seconds;
  }

-- What is cached of a token.
abbrev pub entry_of : MintedToken → CacheEntry
entry_of t = record {
  token = t.token;
  expires_at = t.expires_at;
  expires_in_seconds = t.expires_in_seconds;
}
