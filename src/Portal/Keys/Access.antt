-- ===== src/Portal/Keys/Access.antt =====
-- internal/api/portal.go and internal/authn/middleware.go: a key opens its merchant's account, from its
-- creation until the merchant revokes it.
use zia.Base.{
  ℕ, suc, String, Bool, true, false, not, ◌<>◌, ◌≡◌, refl, ap, ◌∙◌, Option, none, some, List, [],
  ◌∷◌, ◌++◌, any, find, find-append_last, select, str_eq, str_eq_self, nonempty, arith,
}
use zia.Domain.Portal.{ApiKey}
use zia.Effects.Failure.{external}
use zia.Effects.World.{World, Env, tick}
use zia.Effects.Action.{exec, query}
use zia.Api.Handler.{
  Reply, Handler, answered, refused, ◌>>=◌, answer, attempt, need, bad_request, internal_error,
}
use zia.Api.Bearer.{is_bearer, token_of, bearer-is_bearer, token_of-bearer}
use zia.Api.Sequences.{attempt-ok, attempt-err, require-true}
use zia.Portal.Keys.{
  KeyRequest, KeyView, key_view, key_of, raw_key, insert_key, key_by_hash, is_key, delete_key,
  save_key, create_key_with, create_key, revoke_key,
}
use zia.Authn.{middleware, write_unauthorized}

abbrev pub has_hash : String → ApiKey → Bool
has_hash h k = str_eq k.key_hash h

module _ (env : Env) (up : (n : ℕ) → env.fails n ≡ false) (sha256 : String → String)
    (raw_bytes : ℕ → Option (List ℕ)) where
  abbrev pub made : String → KeyRequest → List ℕ → World → ApiKey
  made merchant_id req bytes w =
      key_of env sha256 raw_bytes merchant_id req bytes (env.uuid (suc w.calls))
        (env.now (suc (suc w.calls)))

  created :
      (merchant_id : String) (req : KeyRequest) (bytes : List ℕ) (w : World)
      → nonempty req.name ≡ true
      → raw_bytes w.calls ≡ some bytes
      → let k = made merchant_id req bytes w in
        create_key env sha256 raw_bytes merchant_id (some (some req)) w ≡ (
          answered (raw_key req bytes, key_view k),
          record w {
            api = record w.api { api_keys = w.api.api_keys ++ k ∷ [] };
            calls = suc (suc (suc (suc w.calls)));
          },
        )
  unfolding create_key create_key_with save_key insert_key exec
  created merchant_id req bytes w named drawn =
      let k = made merchant_id req bytes w in
      let save : List ℕ → Handler (String × KeyView) =
        save_key env sha256 raw_bytes merchant_id req in
      let drawing : Handler (String × KeyView) =
        λ v. (need (raw_bytes v.calls) internal_error >>= save) (tick v) in
      let full = tick (record w {
        api = record w.api { api_keys = w.api.api_keys ++ k ∷ [] };
        calls = suc (suc (suc w.calls));
      }) in
      require-true (nonempty req.name) (bad_request "Key name is required") drawing w named
      ∙ ap (λ d. (need d internal_error >>= save) (tick w)) drawn
      ∙ attempt-ok (insert_key env k) (refused 500 "1007" "Failed to create API key")
          (λ _. answer (raw_key req bytes, key_view k)) (tick (tick (tick w))) full tt
          (rw (up (suc (suc (suc w.calls)))) refl)

  abbrev ask : String → Handler String
  ask hash = attempt (key_by_hash env hash) write_unauthorized >>= λ k. answer k.merchant_id

  entered :
      (token : String) (w : World)
      → middleware env sha256 ("Bearer " <> token) w ≡ ask (sha256 token) w
  unfolding middleware
  entered token w =
      require-true (is_bearer ("Bearer " <> token)) write_unauthorized
        (ask (sha256 (token_of ("Bearer " <> token)))) w (bearer-is_bearer token)
      ∙ ap (λ t. ask (sha256 t) w) (token_of-bearer token)

  let_in :
      (token : String) (k : ApiKey) (w : World)
      → find (has_hash (sha256 token)) w.api.api_keys ≡ some k
      → (middleware env sha256 ("Bearer " <> token) w).0 ≡ answered k.merchant_id
  unfolding key_by_hash query
  let_in token k w here =
      ap (λ m. m.0)
        (entered token w
          ∙ attempt-ok (key_by_hash env (sha256 token)) write_unauthorized
              (λ x. answer x.merchant_id) w (tick w) k (rw (up w.calls, here) refl))

  kept_out :
      (token : String) (w : World)
      → find (has_hash (sha256 token)) w.api.api_keys ≡ none
      → (middleware env sha256 ("Bearer " <> token) w).0 ≡ write_unauthorized
  unfolding key_by_hash query
  kept_out token w gone =
      ap (λ m. m.0)
        (entered token w
          ∙ attempt-err (key_by_hash env (sha256 token)) 401 "1002" "unauthorized"
              (λ x. answer x.merchant_id) w (tick w) external (rw (up w.calls, gone) refl))

  still_found :
      (ks : List ApiKey) (k : ApiKey) (h id merchant_id : String)
      → any (has_hash h) ks ≡ false
      → str_eq k.key_hash h ≡ true
      → is_key id merchant_id k ≡ false
      → find (has_hash h) (select (λ x. not (is_key id merchant_id x)) (ks ++ k ∷ [])) ≡ some k
  still_found [] k h id m fresh own other = ground arith
  still_found (x ∷ ks) k h id m fresh own other = ground (arith, still_found ks k h id m)

  none_found :
      (ks : List ApiKey) (k : ApiKey) (h id merchant_id : String)
      → any (has_hash h) ks ≡ false
      → is_key id merchant_id k ≡ true
      → find (has_hash h) (select (λ x. not (is_key id merchant_id x)) (ks ++ k ∷ [])) ≡ none
  none_found [] k h id m fresh own = ground arith
  none_found (x ∷ ks) k h id m fresh own = ground (arith, none_found ks k h id m)

  revoked :
      (merchant_id id : String) (w : World)
      → (revoke_key env merchant_id id w).1.api.api_keys
        ≡ select (λ x. not (is_key id merchant_id x)) w.api.api_keys
  unfolding revoke_key delete_key exec
  revoked merchant_id id w = rw (up w.calls) refl

  -- Where nothing of ours fails, a merchant that asks for a key with a name is shown one. While the
  -- table of keys stays, a request with it is let in as that merchant; also after another merchant
  -- has asked to revoke it, but not after its own merchant has. No earlier key may have its hash.
  pub created_key-access :
      (owner other : String) (req : KeyRequest) (bytes : List ℕ) (w later : World)
      → nonempty req.name ≡ true
      → raw_bytes w.calls ≡ some bytes
      → any (has_hash (sha256 (raw_key req bytes))) w.api.api_keys ≡ false
      → str_eq owner other ≡ false
      → later.api.api_keys
        ≡ (create_key env sha256 raw_bytes owner (some (some req)) w).1.api.api_keys
      → let k = made owner req bytes w in
        let use_key : World → Reply String =
          λ v. (middleware env sha256 ("Bearer " <> raw_key req bytes) v).0 in
        ((create_key env sha256 raw_bytes owner (some (some req)) w).0
          ≡ answered (raw_key req bytes, key_view k))
        × (use_key later ≡ answered owner)
        × (use_key (revoke_key env other k.id later).1 ≡ answered owner)
        × (use_key (revoke_key env owner k.id later).1 ≡ write_unauthorized)
  created_key-access owner other req bytes w later named drawn fresh apart same =
      let k = made owner req bytes w in
      let h = sha256 (raw_key req bytes) in
      let run = created owner req bytes w named drawn in
      let keys : later.api.api_keys ≡ w.api.api_keys ++ k ∷ [] =
        same ∙ ap (λ m. m.1.api.api_keys) run in
      let own : is_key k.id owner k ≡ true = rw (str_eq_self k.id) (str_eq_self owner) in
      let not_own : is_key k.id other k ≡ false = rw (str_eq_self k.id) apart in
      let left : String → List ApiKey → List ApiKey =
        λ m ks. select (λ x. not (is_key k.id m x)) ks in
      (
        ap (λ m. m.0) run,
        let_in (raw_key req bytes) k later (
            ap (find (has_hash h)) keys
            ∙ find-append_last (has_hash h) w.api.api_keys k fresh (str_eq_self h)),
        let_in (raw_key req bytes) k (revoke_key env other k.id later).1 (
            ap (find (has_hash h)) (revoked other k.id later ∙ ap (left other) keys)
            ∙ still_found w.api.api_keys k h k.id other fresh (str_eq_self h) not_own),
        kept_out (raw_key req bytes) (revoke_key env owner k.id later).1 (
            ap (find (has_hash h)) (revoked owner k.id later ∙ ap (left owner) keys)
            ∙ none_found w.api.api_keys k h k.id owner fresh own),
      )
