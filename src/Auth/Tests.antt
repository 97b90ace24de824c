-- ===== src/Auth/Tests.antt =====
-- The theorems of the token minter at concrete inputs.
use examples_service.Common.{
  ◌+◌, ◌≤◌, ◌<◌, ◌≡◌, refl, true, false, none, some, List, [], ◌∷◌, if◌then◌else◌, count,
}
use examples_service.Common.Dict.{lookup, insert, erase}
use examples_service.Js.{
  null, bool, num, str, obj, Fields, end, field, get, has, undefined, IsDistinct,
}
use examples_service.Auth.Scopes.{cache_key, stable_scope_hash, merge_scopes}
use examples_service.Auth.Scopes.Laws.{is_null, get-merge_fields}
use examples_service.Auth.Minter.{
  Config, CacheEntry, MintedToken, Reply, body, Event, mint, replied, cached, miss, hit, mint_token,
  minted, step, after, clock_skew_ms,
}
use examples_service.Auth.Minter.Laws.{is_sent_for, is_reply_to, sent_once}
use examples_service.Auth.Minter.Provenance.{cached_unexpired}
use examples_service.Auth.Minter.Provenance.Delivered.{IsDelivered}

abbrev base : Fields
base = field "can_start_sessions" (bool true) (field "is_observer" (bool false) end)

abbrev over : Fields
over = field "is_observer" null (field "max_open_sessions" (num "2") end)

over-IsDistinct : IsDistinct over
unfolding has
over-IsDistinct = (refl, (refl, tt))

get-merge_fields_example : get "is_observer" (merge_scopes base (some over)) ≡ (
    if has "is_observer" over
    then (if is_null (get "is_observer" over) then undefined else get "is_observer" over)
    else get "is_observer" base)
get-merge_fields_example = get-merge_fields "is_observer" base over over-IsDistinct

abbrev config : Config
config = record { auth_service_url = "http://auth//"; auth_token_ttl_seconds = 3600 }

abbrev reply : Reply
reply = body (obj (field "token" (str "abc") end)) (some 60)

abbrev token : MintedToken
token = record {
  token = "abc";
  sender = "risk";
  expires_at = 60500;
  expires_in_seconds = 60;
  cache_outcome = miss;
}

-- Two callers at 100 and 101, and the reply at 500.
abbrev history : List Event
history = replied 500 "risk::" reply ∷ mint 101 "risk" none ∷ mint 100 "risk" none ∷ []

sent_once_example :
    count (is_sent_for "risk::") (after config history).sent
    ≤ count (is_reply_to "risk::") history + 1
sent_once_example = sent_once config "risk::" history

hit_at_600 :
    (mint_token config 600 "risk" none (after config history)).1
    ≡ cached (record token { cache_outcome = hit })
unfolding mint_token after step minted get lookup insert erase cache_key stable_scope_hash
hit_at_600 = refl

cached_unexpired_example :
    (entry : CacheEntry) × IsDelivered config (cache_key "risk" none) entry history
    × (record token { cache_outcome = hit } ≡ record {
      token = entry.token;
      sender = "risk";
      expires_at = entry.expires_at;
      expires_in_seconds = entry.expires_in_seconds;
      cache_outcome = hit;
    })
    × (600 + clock_skew_ms < entry.expires_at)
cached_unexpired_example =
    cached_unexpired config history 600 "risk" none (record token { cache_outcome = hit })
      hit_at_600
