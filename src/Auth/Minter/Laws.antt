-- ===== src/Auth/Minter/Laws.antt =====
-- When a token is minted, how often it is asked for, and where a cached one comes from.
use examples_service.Common.{
  ℕ, ◌+◌, ◌*◌, ◌≤◌, ◌≡◌, refl, sym, subst, String, Bool, true, false, arith, inl, inr,
}
use examples_service.Common.{
  Option, none, some, List, [], ◌∷◌, ◌==◌, string_eq, if◌then◌else◌, Bool-cases, count, count-snoc,
}
use examples_service.Common.Dict.{lookup, erase, lookup-insert, lookup-erase}
use examples_service.Common.Text.{truthy}
use examples_service.Js.{Value, str, Fields}
use examples_service.Errors.{Result, ok, err}
use examples_service.Auth.Scopes.{cache_key}
use examples_service.Auth.Minter.{
  Config, CacheEntry, MintedToken, miss, MintRequest, Reply, body, Request, State,
}
use examples_service.Auth.Minter.{Event, mint, replied, is_expired, read_entry}
use examples_service.Auth.Minter.{
  join_or_request, mint_from, mint_token, token_of, minted, store, end_request, step, after,
}
use text.Mathlib.TextEquality.{eq_iff}

-- The reply is a body with a non-empty token, and `t` is that token with its times.
pub record IsMintedFrom (config : Config) (now : ℕ) (sender : String) (reply : Reply)
    (t : MintedToken) : Type 0 where
  pub value : Value
  pub seconds : Option ℕ
  pub configured : truthy config.auth_service_url ≡ true
  pub answered : reply ≡ body value seconds
  pub named : token_of value ≡ str t.token
  pub given : truthy t.token ≡ true
  pub owner : t.sender ≡ sender
  -- The seconds of the reply, but no less than one, or those of the configuration.
  pub at_least_one : (n : ℕ) → seconds ≡ some n → 1 ≤ t.expires_in_seconds
  pub as_given : (n : ℕ) → seconds ≡ some n → 1 ≤ n → t.expires_in_seconds ≡ n
  pub as_configured : seconds ≡ none → t.expires_in_seconds ≡ config.auth_token_ttl_seconds
  pub expiry : t.expires_at ≡ now + t.expires_in_seconds * 1000
  pub fresh : t.cache_outcome ≡ miss

-- A request of the key.
abbrev pub is_sent_for : String → String × String × MintRequest → Bool
is_sent_for key (url, k, request) = k == key

-- A reply to the request of the key.
abbrev pub is_reply_to : String → Event → Bool
is_reply_to key (mint now sender scopes) = false
is_reply_to key (replied now k reply) = k == key

abbrev pub open_requests : Option Request → ℕ
open_requests none = 0
open_requests (some r) = 1

store-keeps :
    (k : String) (r : Result MintedToken) (s : State)
    → ((store k r s).inflight ≡ s.inflight) × ((store k r s).sent ≡ s.sent)
store-keeps k (ok t) s = (refl, refl)
store-keeps k (err e) s = (refl, refl)

module _ (config : Config) (key : String) where
  abbrev IsCoalesced : ℕ → State → Type 0
  IsCoalesced replies s =
      count (is_sent_for key) s.sent ≤ replies + open_requests (lookup key s.inflight)

  mint_from-IsCoalesced :
      (k sender : String) (scopes : Option Fields) (o : Option Request) (n : ℕ) (s : State)
      → lookup k s.inflight ≡ o
      → IsCoalesced n s
      → IsCoalesced n (join_or_request config k sender scopes o s).0
  mint_from-IsCoalesced k sender scopes (some r) n s e h = h
  mint_from-IsCoalesced k sender scopes none n s e h = grind (
    arith,
    count-snoc,
    lookup-insert k key (record { sender = sender; scopes = scopes }) s.inflight,
    eq_iff k key,
  )

  read_cache-IsCoalesced :
      (now : ℕ) (k sender : String) (scopes : Option Fields) (o : Option CacheEntry) (n : ℕ)
      (s : State)
      → IsCoalesced n s
      → IsCoalesced n (mint_from config k sender scopes (read_entry now k o s)).0
  read_cache-IsCoalesced now k sender scopes none n s h =
      mint_from-IsCoalesced k sender scopes (lookup k s.inflight) n s refl h
  read_cache-IsCoalesced now k sender scopes (some entry) n s h =
      elim (Bool-cases (is_expired now entry)) [
        | inl e ↦ rw e (
            mint_from-IsCoalesced k sender scopes (lookup k s.inflight) n
              (record s { cache = erase k s.cache }) refl h)
        | inr e ↦ rw e h
      ]

  mint_token-IsCoalesced :
      (now : ℕ) (sender : String) (scopes : Option Fields) (n : ℕ) (s : State)
      → IsCoalesced n s
      → IsCoalesced n (mint_token config now sender scopes s).0
  unfolding mint_token
  mint_token-IsCoalesced now sender scopes n s h = elim (Bool-cases (truthy sender)) [
    | inl given ↦ rw given (
        read_cache-IsCoalesced now (cache_key sender scopes) sender scopes (lookup _ s.cache) n s h)
    | inr empty ↦ rw empty h
  ]

  end_request-IsCoalesced :
      (now : ℕ) (k : String) (reply : Reply) (o : Option Request) (n : ℕ) (s : State)
      → lookup k s.inflight ≡ o
      → IsCoalesced n s
      → IsCoalesced (if k == key then n + 1 else n) (end_request config now k reply o s)
  end_request-IsCoalesced now k reply none n s e h = grind arith
  end_request-IsCoalesced now k reply (some r) n s e h =
      let (same, same_sent) = store-keeps k (minted config now r.sender reply) s in
      rw (same, same_sent) (grind (arith, lookup-erase k key s.inflight, eq_iff k key))

  count-mint :
      (now : ℕ) (sender : String) (scopes : Option Fields) (history : List Event)
      → count (is_reply_to key) (mint now sender scopes ∷ history) ≡ count (is_reply_to key) history
  count-mint now sender scopes history = omega arith

  count-replied :
      (now : ℕ) (k : String) (reply : Reply) (history : List Event)
      → let n = count (is_reply_to key) history in
        count (is_reply_to key) (replied now k reply ∷ history) ≡ (if k == key then n + 1 else n)
  count-replied now k reply history = ground arith

  after-IsCoalesced :
      (history : List Event) → IsCoalesced (count (is_reply_to key) history) (after config history)
  unfolding after step
  after-IsCoalesced [] = omega arith
  after-IsCoalesced (mint now sender scopes ∷ history) =
      subst (λ n. IsCoalesced n (mint_token config now sender scopes (after config history)).0)
        (sym (count-mint now sender scopes history))
        (mint_token-IsCoalesced now sender scopes _ (after config history)
          (after-IsCoalesced history))
  after-IsCoalesced (replied now k reply ∷ history) =
      subst
        (λ n. IsCoalesced n (
          end_request config now k reply (lookup k (after config history).inflight)
            (after config history)))
        (sym (count-replied now k reply history))
        (end_request-IsCoalesced now k reply _ _ (after config history) refl
          (after-IsCoalesced history))

  -- Concurrent callers with one key share one request: at any time at most one more request of a key
  -- has been sent than replies to it have come.
  pub sent_once :
      (history : List Event)
      → count (is_sent_for key) (after config history).sent ≤ count (is_reply_to key) history + 1
  sent_once history = grind (arith, after-IsCoalesced history)
