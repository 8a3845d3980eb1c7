-- ===== src/Middleware/Access.antt =====
-- Who gets through the checks of internal/platform/middleware.
use go_saas_api.Common.{
  ℕ, ◌≡◌, ◌≢◌, ◌⊎◌, inl, inr, refl, sym, ap, String, Bool, true, false, Option, none, some, List,
  [], ◌∷◌, ◌==◌, nat_eq, string_eq, any_by, find_by,
}
use go_saas_api.Common.Bytes.{Bytes}
use go_saas_api.ApiKey.{ApiKey, Keys, Verdict, granted, denied, is_active, validate_key, revoke_key}
use go_saas_api.ApiKey.Runs.{Operation, perform_all, validate_key-granted, validate_key-revoked}
use go_saas_api.Middleware.{
  Request, Claims, Parsed, Validated, valid, failed, invalid_token, expired_token, next, abort,
  extract_token, validate_token, decide_token, decide_extracted, jwt_auth, claims_if_valid,
  claims_of, jwt_auth_optional, key_claims, decide_key, try_key, decide_either, jwt_or_api_key_auth,
}

decide_token-next :
    (v : Validated) (m : Option Claims)
    → decide_token v ≡ next m
    → (claims_if_valid v ≡ m) × ((c : Claims) × (m ≡ some c))
unfolding decide_token claims_if_valid
decide_token-next (valid c) m h = let same : some c ≡ m = cc h in (same, (c, sym same))
decide_token-next (failed expired_token) m h = cc
decide_token-next (failed invalid_token) m h = cc

module _ (parse : Bytes → Parsed) where
  decide_extracted-next :
      (t : Bytes) (malformed : Bool) (m : Option Claims)
      → decide_extracted parse (t, malformed) ≡ next m
      → (claims_of parse t ≡ m) × ((c : Claims) × (m ≡ some c))
  unfolding decide_extracted claims_of
  decide_extracted-next [] true m h = cc
  decide_extracted-next [] false m h = cc
  decide_extracted-next (b ∷ t) malformed m h = decide_token-next (validate_token parse (b ∷ t)) m h

  module _ (hash_key : Bytes → String) (format_uuid : ℕ → String) where
    -- A request that the strict check of the token lets through has a user, and the two other
    -- checks let it through as the same user, without a look at the table of keys.
    pub jwt_auth-agree :
        (req : Request) (now : ℕ) (w : Keys) (m : Option Claims)
        → jwt_auth parse req ≡ next m
        → ((c : Claims) × (m ≡ some c))
          × (jwt_auth_optional parse req ≡ next m)
          × (jwt_or_api_key_auth parse hash_key format_uuid req now w ≡ (next m, w))
    unfolding jwt_auth jwt_auth_optional jwt_or_api_key_auth
    jwt_auth-agree req now w m h =
        let (same, (c, user)) =
          decide_extracted-next (extract_token req).0 (extract_token req).1 m h in
        ((c, user), ap next same, rw (same, user) (unfold decide_either in refl))

    -- What a decision on a key rests on.
    decide_key-next :
        (message : String) (v : Verdict ApiKey × Keys) (m : Option Claims)
        → (decide_key format_uuid (abort message) v).0 ≡ next m
        → (k : ApiKey) × (v.0 ≡ granted k) × (m ≡ some (key_claims format_uuid k))
    unfolding decide_key
    decide_key-next message (granted k, w) m h = (k, refl, cc h)
    decide_key-next message (denied r, w) m h = cc

    try_key-next :
        (message : String) (header : Bytes) (now : ℕ) (w : Keys) (m : Option Claims)
        → (try_key hash_key format_uuid (abort message) header now w).0 ≡ next m
        → (k : ApiKey) × ((validate_key hash_key header now w).0 ≡ granted k)
          × (m ≡ some (key_claims format_uuid k))
    unfolding try_key
    try_key-next message [] now w m h = cc
    try_key-next message (b ∷ header) now w m h = decide_key-next message _ m h

    decide_either-next :
        (claims : Option Claims) (malformed : Bool) (header : Bytes) (now : ℕ) (w : Keys)
        (m : Option Claims)
        → (decide_either hash_key format_uuid claims malformed header now w).0 ≡ next m
        → ((c : Claims) × (claims ≡ some c) × (m ≡ some c))
          ⊎ ((k : ApiKey) × ((validate_key hash_key header now w).0 ≡ granted k)
              × (m ≡ some (key_claims format_uuid k)))
    unfolding decide_either
    decide_either-next (some c) malformed header now w m h = inl (c, refl, cc h)
    decide_either-next none true header now w m h = inr (try_key-next _ header now w m h)
    decide_either-next none false header now w m h = inr (try_key-next _ header now w m h)

    -- After the revocation of a key that is in the table, and whatever the service does then: a
    -- request that the check of token or key lets through is the user of its own valid token, or
    -- the owner of the row that the table then has first under the digest of the request's key; that
    -- row is active, and another than the revoked one.
    pub jwt_or_api_key_auth-revoked :
        (id now : ℕ) (w : Keys) (ops : List Operation) (req : Request) (later : ℕ)
        (m : Option Claims)
        → any_by (λ j. j.id == id) w.rows ≡ true
        → (revoke_key id now w).0 ≡ granted tt
        → (jwt_or_api_key_auth parse hash_key format_uuid req later
            (perform_all hash_key ops (revoke_key id now w).1)).0
          ≡ next m
        → ((c : Claims) × (claims_of parse (extract_token req).0 ≡ some c) × (m ≡ some c))
          ⊎ ((k : ApiKey) × (find_by
                  (λ j. j.key_hash == hash_key req.api_key)
                  (perform_all hash_key ops (revoke_key id now w).1).rows
                ≡ some k)
              × (is_active k later ≡ true)
              × (k.id ≢ id)
              × (m ≡ some (key_claims format_uuid k)))
    unfolding jwt_or_api_key_auth
    jwt_or_api_key_auth-revoked id now w ops req later m there done h =
        elim (decide_either-next _ (extract_token req).1 req.api_key later _ m h) [
          | inl own ↦ inl own
          | inr (k, accepted, as_owner) ↦ inr (
            k,
            (validate_key-granted hash_key req.api_key later _ k accepted).0,
            (validate_key-granted hash_key req.api_key later _ k accepted).1,
            validate_key-revoked hash_key id now w ops req.api_key later k there done accepted,
            as_owner,
          )
        ]
