-- ===== src/Auth/Minter/Entries.antt =====
-- The state of src/auth/auth-token-minter.service.ts: the cache, the open requests, the replies.
use examples_service.Common.{ℕ, ◌+◌, String, ◌<>◌, Bool, Option, none, some}
use examples_service.Common.{List, [], ◌==◌, string_eq, leb, if◌then◌else◌}
use examples_service.Common.Dict.{Dict, lookup, insert, erase}
use examples_service.Js.{Value, obj, Fields, get, undefined}
use examples_service.Errors.{
  AppException, Result, ok, err, app_exception, auth_mint_failed, bad_gateway,
}

pub record Config : Type 0 where
  pub auth_service_url : String
  pub auth_token_ttl_seconds : ℕ

pub record CacheEntry : Type 0 where
  pub token : String
  pub expires_at : ℕ
  pub expires_in_seconds : ℕ

pub data CacheOutcome : Type 0 where
  hit miss : CacheOutcome

pub record MintedToken : Type 0 where
  pub token : String
  pub sender : String
  pub expires_at : ℕ
  pub expires_in_seconds : ℕ
  pub cache_outcome : CacheOutcome

pub record MintRequest : Type 0 where
  pub sender : String
  pub scopes : Option Fields
  pub ttl_seconds : ℕ

-- How `fetch` ends: with the message of a network error, a status that is not ok, the message of a
-- body that is no JSON, or a body. The second part of a body is the floor of its
-- `expires_in_seconds` where that is a finite number, 0 for a negative one.
pub data Reply : Type 0 where
  network : String → Reply
  http : ℕ → Reply
  bad_json : String → Reply
  body : Value → Option ℕ → Reply

-- A request that has not been answered.
pub record Request : Type 0 where
  pub sender : String
  pub scopes : Option Fields

-- `sent` lists the requests that went out, each after its address and its key.
pub record State : Type 0 where
  pub cache : Dict CacheEntry
  pub inflight : Dict Request
  pub sent : List (String × String × MintRequest)

pub data Answer : Type 0 where
  thrown : AppException → Answer
  cached : MintedToken → Answer
  promised : String → Answer

pub data Event : Type 0 where
  mint : ℕ → String → Option Fields → Event
  replied : ℕ → String → Reply → Event

abbrev pub clock_skew_ms : ℕ
clock_skew_ms = 10000

abbrev pub mint_failed {ℓ} : {A : Type ℓ} → String → Result A
mint_failed message = err (app_exception auth_mint_failed message bad_gateway)

abbrev pub initial : State
initial = record { cache = []; inflight = []; sent = [] }

-- `Date.now() >= entry.expiresAt - CLOCK_SKEW_MS`
abbrev pub is_expired : ℕ → CacheEntry → Bool
is_expired now entry = leb entry.expires_at (now + clock_skew_ms)

-- `readCache`
abbrev pub read_entry : ℕ → String → Option CacheEntry → State → State × Option CacheEntry
read_entry now key none s = (s, none)
read_entry now key (some entry) s =
    if is_expired now entry then (record s { cache = erase key s.cache }, none) else (s, some entry)

abbrev pub read_cache : ℕ → String → State → State × Option CacheEntry
read_cache now key s = read_entry now key (lookup key s.cache) s

-- `base.replace(/\/+$/, '')`
abbrev pub cons_slash : String → String → String
cons_slash c String.[] = if c == "/" then "" else c
cons_slash c (String.◌∷◌ d t) = c <> String.◌∷◌ d t

unfoldable pub without_slashes : String → String
without_slashes String.[] = ""
without_slashes (String.◌∷◌ c s) = cons_slash (String.◌∷◌ c "") (without_slashes s)

-- The field `token`; no other value than an object has one.
abbrev pub token_of : Value → Value
token_of (obj fs) = get "token" fs
token_of v = undefined

abbrev pub store : String → Result MintedToken → State → State
store key (err e) s = s
store key (ok t) s = record s {
  cache =
      insert key
        (record {
          token = t.token;
          expires_at = t.expires_at;
          expires_in_seconds = t.expires_in_seconds;
        })
        s.cache;
}
