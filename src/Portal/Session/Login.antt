-- ===== src/Portal/Session/Login.antt =====
-- internal/api/portal.go: a login lets its user in, and nobody else by that user's older tokens.
use zia.Base.{
  ℕ, suc, ◌+◌, String, Bool, true, false, not, ◌&&◌, ◌<>◌, ◌≡◌, refl, sym, ap, ◌∙◌, inl, inr, some,
  List, [], ◌∷◌, ◌++◌, any, find, select, str_eq, str_eq_self, nonempty, ltb, arith, Bool-cases,
  Option-cases,
}
use zia.Domain.Accounting.{Merchant}
use zia.Domain.Portal.{User, Session}
use zia.Effects.World.{World, Env, tick}
use zia.Effects.Action.{query, exec}
use zia.Api.Handler.{
  Handler, answered, ◌>>=◌, answer, attempt, internal_error, bad_request, unauthorized,
}
use zia.Api.Bearer.{is_bearer, token_of, bearer-is_bearer, token_of-bearer}
use zia.Api.Sequences.{attempt-ok, perform_run, require-true}
use zia.Portal.Tables.{
  newest, user_by_email, create_session, join_users, is_live, session_by_token, delete_sessions,
  merchant_by_id,
}
use zia.Portal.Session.{
  Credentials, login, login_with, check_user, open_session, issue_session, show_workspace,
  portal_auth, new_session, session_lifetime, user_view, workspace,
}

module _ (env : Env) (up : (n : ℕ) → env.fails n ≡ false)
    (check_password : String → String → Bool) where
  -- The session that is opened.
  abbrev pub issued : User → World → Session
  issued u w = record {
    id = env.uuid (suc w.calls);
    user_id = u.id;
    merchant_id = "";
    token = env.uuid (suc (suc w.calls));
    expires_at = env.now (suc (suc (suc w.calls))) + session_lifetime;
    created_at = env.now (suc (suc (suc (suc w.calls))));
  }

  abbrev pub others : User → List Session → List Session
  others u ss = select (λ s. not (str_eq s.user_id u.id)) ss

  abbrev pub opened : User → World → World
  opened u w = record w {
    api = record w.api { sessions = others u w.api.sessions ++ issued u w ∷ [] };
    calls = suc (suc (suc (suc (suc (suc (suc w.calls))))));
  }

  others-fresh :
      (token : String) (u : User) (ss : List Session)
      → any (λ x. str_eq x.token token) ss ≡ false
      → any (λ x. str_eq x.token token) (others u ss) ≡ false
  others-fresh token u [] fresh = refl
  others-fresh token u (s ∷ ss) fresh = ground (arith, others-fresh token u ss)

  workspace-shown :
      (u : User) (s : Session) (m : Merchant) (w : World)
      → find (λ x. str_eq x.id u.merchant_id) w.merchants ≡ some m
      → show_workspace env u s w ≡ (
        answered (record { token = s.token; user = user_view u; workspace = workspace m }),
        tick w,
      )
  unfolding show_workspace merchant_by_id query
  workspace-shown u s m w works =
      attempt-ok (merchant_by_id env u.merchant_id) internal_error
        (λ x. answer (record { token = s.token; user = user_view u; workspace = workspace x })) w
        (tick w) m (rw (up w.calls, works) refl)

  session-issued :
      (u : User) (m : Merchant) (w : World)
      → find (λ x. str_eq x.id u.merchant_id) w.merchants ≡ some m
      → any (λ x. str_eq x.token (issued u w).token) w.api.sessions ≡ false
      → let w' = record w {
        api = record w.api { sessions = w.api.sessions ++ issued u w ∷ [] };
        calls = suc (suc (suc (suc (suc (suc w.calls)))));
      } in
        issue_session env u (tick w) ≡ (
          answered
              (record { token = (issued u w).token; user = user_view u; workspace = workspace m }),
          tick w',
        )
  unfolding issue_session new_session create_session exec
  session-issued u m w works fresh =
      let s = issued u w in
      let w₅ = tick (tick (tick (tick (tick w)))) in
      let w₆ = tick (record w₅ { api = record w.api { sessions = w.api.sessions ++ s ∷ [] } }) in
      attempt-ok (create_session env s) internal_error (λ _. show_workspace env u s) w₅ w₆ tt
        (rw fresh (rw (up w₅.calls) refl))
      ∙ workspace-shown u s m w₆ works

  open_session-run :
      (u : User) (m : Merchant) (w : World)
      → find (λ x. str_eq x.id u.merchant_id) w.merchants ≡ some m
      → any (λ x. str_eq x.token (issued u w).token) w.api.sessions ≡ false
      → open_session env u w ≡ (
        answered
            (record { token = (issued u w).token; user = user_view u; workspace = workspace m }),
        opened u w,
      )
  unfolding open_session delete_sessions exec
  open_session-run u m w works fresh =
      let cleared = record w { api = record w.api { sessions = others u w.api.sessions } } in
      perform_run (delete_sessions env u.id) (issue_session env u) w (tick cleared)
        (rw (up w.calls) refl)
      ∙ session-issued u m cleared works (others-fresh (issued u w).token u w.api.sessions fresh)

  pub login-run :
      (creds : Credentials) (u : User) (m : Merchant) (w : World)
      → (nonempty creds.email && nonempty creds.password) ≡ true
      → newest (λ x. x.created_at) (select (λ x. str_eq x.email creds.email) w.api.users) ≡ some u
      → check_password u.password_hash creds.password ≡ true
      → find (λ x. str_eq x.id u.merchant_id) w.merchants ≡ some m
      → any (λ x. str_eq x.token (issued u (tick w)).token) w.api.sessions ≡ false
      → login env check_password (some (some creds)) w ≡ (
        answered (record {
          token = (issued u (tick w)).token;
          user = user_view u;
          workspace = workspace m;
        }),
        opened u (tick w),
      )
  unfolding login login_with check_user user_by_email query
  login-run creds u m w both here good works fresh =
      require-true (nonempty creds.email && nonempty creds.password)
        (bad_request "Email and password are required")
        (attempt (user_by_email env creds.email) (unauthorized "Invalid email or password")
          >>= check_user env check_password creds.password)
        w both
      ∙ attempt-ok (user_by_email env creds.email) (unauthorized "Invalid email or password")
          (check_user env check_password creds.password) w (tick w) u (rw (up w.calls, here) refl)
      ∙ require-true (check_password u.password_hash creds.password)
          (unauthorized "Invalid email or password") (open_session env u) (tick w) good
      ∙ open_session-run u m (tick w) works fresh

  -- Only the sessions of others are left beside the new one.
  others-find :
      (us : List User) (token : String) (now : ℕ) (u : User) (s : Session) (ss : List Session)
      → any (λ x. str_eq x.token token) ss ≡ false
      → find (λ x. str_eq x.id s.user_id) us ≡ some u
      → str_eq s.token token ≡ true
      → ltb now s.expires_at ≡ true
      → find (is_live token now) (join_users us (ss ++ s ∷ []))
        ≡ some (record s { merchant_id = u.merchant_id })
  unfolding join_users
  others-find us token now u s [] fresh owner named live =
      rw (owner, join_users) (rw named (rw live refl))
  others-find us token now u s (x ∷ ss) fresh owner named live =
      let rest = others-find us token now u s ss in
      elim (Bool-cases (str_eq x.token token)) [
        | inl this ↦ ground arith
        | inr other ↦
            let unused : any (λ y. str_eq y.token token) ss ≡ false = sym (rw other refl) ∙ fresh in
            elim (Option-cases (find (λ y. str_eq y.id x.user_id) us)) [
              | inl orphan ↦ rw (orphan, join_users) (rest unused owner named live)
              | inr (v, owned) ↦ rw (owned, join_users) (rw other (rest unused owner named live))
            ]
      ]

  others-apart :
      (token : String) (u : User) (s : Session) (ss : List Session)
      → str_eq s.token token ≡ true
      → any (λ x. str_eq x.user_id u.id && not (str_eq x.token token)) (others u ss ++ s ∷ [])
        ≡ false
  others-apart token u s [] named = ground arith
  others-apart token u s (x ∷ ss) named = ground (arith, others-apart token u s ss)

  let_in :
      (token : String) (s : Session) (w : World)
      → find (is_live token (env.now w.calls)) (join_users w.api.users w.api.sessions) ≡ some s
      → (portal_auth env ("Bearer " <> token) w).0 ≡ answered (s.user_id, s.merchant_id)
  unfolding portal_auth session_by_token query
  let_in token s w here =
      let header = "Bearer " <> token in
      let no_header = unauthorized "Authentication failed" in
      let no_session = unauthorized "Invalid or expired session" in
      let enter : Session → Handler (String × String) = λ x. answer (x.user_id, x.merchant_id) in
      ap (λ m. m.0)
        (require-true (is_bearer header) no_header
            (attempt (session_by_token env (token_of header)) no_session >>= enter) w
            (bearer-is_bearer token)
          ∙ attempt-ok (session_by_token env (token_of header)) no_session enter w (tick w) s
              (rw (token_of-bearer token) (rw (up w.calls, here) refl)))

  -- Where nothing of ours fails, a login with the password of the newest user under its email
  -- answers with a session. Until it expires, and while the tables stay, its token lets the request
  -- in as that user and the user's merchant; no other session of that user is left. The token must
  -- be no session's yet, and the user the only one under its id.
  pub login-portal_auth :
      (creds : Credentials) (u : User) (m : Merchant) (w later : World)
      → (nonempty creds.email && nonempty creds.password) ≡ true
      → newest (λ x. x.created_at) (select (λ x. str_eq x.email creds.email) w.api.users) ≡ some u
      → check_password u.password_hash creds.password ≡ true
      → find (λ x. str_eq x.id u.merchant_id) w.merchants ≡ some m
      → find (λ x. str_eq x.id u.id) w.api.users ≡ some u
      → any (λ x. str_eq x.token (issued u (tick w)).token) w.api.sessions ≡ false
      → later.api ≡ (login env check_password (some (some creds)) w).1.api
      → ltb (env.now later.calls) (issued u (tick w)).expires_at ≡ true
      → let token = (issued u (tick w)).token in
        let (r, w') = login env check_password (some (some creds)) w in
        (r ≡ answered (record { token = token; user = user_view u; workspace = workspace m }))
        × ((portal_auth env ("Bearer " <> token) later).0 ≡ answered (u.id, u.merchant_id))
        × (any (λ x. str_eq x.user_id u.id && not (str_eq x.token token)) w'.api.sessions ≡ false)
  login-portal_auth creds u m w later both here good works own fresh same live =
      let s = issued u (tick w) in
      let run = login-run creds u m w both here good works fresh in
      let api = same ∙ ap (λ q. q.1.api) run in
      let found_ : find (is_live s.token (env.now later.calls))
            (join_users later.api.users later.api.sessions)
          ≡ some (record s { merchant_id = u.merchant_id }) =
        ap (λ a. find (is_live s.token (env.now later.calls)) (join_users a.users a.sessions)) api
        ∙ others-find w.api.users s.token (env.now later.calls) u s (others u w.api.sessions)
            (others-fresh s.token u w.api.sessions fresh) own (str_eq_self s.token) live in
      (
        ap (λ q. q.0) run,
        let_in s.token (record s { merchant_id = u.merchant_id }) later found_,
        ap (λ q. any (λ x. str_eq x.user_id u.id && not (str_eq x.token s.token)) q.1.api.sessions)
              run
            ∙ others-apart s.token u s w.api.sessions (str_eq_self s.token),
      )
