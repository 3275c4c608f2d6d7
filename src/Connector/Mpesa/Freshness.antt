-- ===== src/Connector/Mpesa/Freshness.antt =====
-- internal/connector/mpesa/auth.go: where the tokens that `Token` gives out come from.
use zia.Base.{
  ℕ, ◌+◌, ◌<◌, String, true, false, ◌≡◌, refl, ap, ◌∙◌, sym, ◌⊎◌, inl, inr, List, [], ◌∷◌,
  Bool-cases, ltb, arith, subst, ◌-◌,
}
use zia.Base.Int.{ℤ, pos}
use zia.Base.Word.{mul64}
use zia.Effects.Failure.{Error, wrapf, Result, ok, err}
use zia.Effects.Cases.{Result-cases}
use zia.Connector.Http.{Server}
use zia.Connector.Mpesa.Token.{
  MpesaConfig, TokenCodec, TokenManager, new_token_manager, fetch_token, token, add_duration,
  margin,
}

-- A call of `Token`: its two readings of the clock, and the server that may answer it.
pub record Call : Type 0 where
  pub asked_at : ℕ
  pub fetched_at : ℕ
  pub server : Server

-- A property of one call among those that were made.
abbrev pub Among : (Call → Type 0) → List Call → Type 0
Among P [] = ⊥
Among P (c ∷ past) = P c ⊎ Among P past

ok-injective : {A : Type 0} {a b : A} → ok a ≡ ok b → a ≡ b
ok-injective {A} {a} {b} h = ap (λ (r : Result A). elim r as (λ _. A) [ ok x ↦ x | err _ ↦ a ]) h

module _ (cfg : MpesaConfig) (codec : TokenCodec) where
  abbrev pub ask : Call → TokenManager → Result String × TokenManager
  ask c = token cfg codec c.server c.asked_at c.fetched_at

  -- What is kept after some calls, the latest first.
  unfoldable pub kept : List Call → TokenManager
  kept [] = new_token_manager
  kept (c ∷ past) = (ask c (kept past)).1

  -- The server gave the token to this call, to expire at this time.
  abbrev pub Gave : String → ℕ → Call → Type 0
  Gave tok expires c =
      (n : ℤ) × (fetch_token cfg codec c.server ≡ ok (tok, n))
      × (add_duration c.fetched_at (mul64 n (pos 1_000_000_000)) ≡ expires)

  abbrev Kept : TokenManager → List Call → Type 0
  Kept t past = (t.expires_at ≡ 0) ⊎ Among (Gave t.token t.expires_at) past

  token-fetched :
      (c : Call) (t : TokenManager) (tok : String) (n : ℤ)
      → ltb c.asked_at (t.expires_at - margin) ≡ false
      → fetch_token cfg codec c.server ≡ ok (tok, n)
      → ask c t ≡ (
        ok tok,
        record t {
          token = tok;
          expires_at = add_duration c.fetched_at (mul64 n (pos 1_000_000_000));
        },
      )
  unfolding token
  token-fetched c t tok n old given = rw (old, given) refl

  token-refused :
      (c : Call) (t : TokenManager) (e : Error)
      → ltb c.asked_at (t.expires_at - margin) ≡ false
      → fetch_token cfg codec c.server ≡ err e
      → ((ask c t).1 ≡ t) × ((x : Error) × ((ask c t).0 ≡ err x))
  unfolding token
  token-refused c t e old refused =
      (rw (old, refused) refl, (wrapf "fetch mpesa token" e, rw (old, refused) refl))

  token-held :
      (c : Call) (t : TokenManager)
      → ltb c.asked_at (t.expires_at - margin) ≡ true
      → ask c t ≡ (ok t.token, t)
  unfolding token
  token-held c t fresh = rw fresh refl

  older : (c : Call) (past : List Call) (t : TokenManager) → Kept t past → Kept t (c ∷ past)
  older c past t (inl zero) = inl zero
  older c past t (inr given) = inr (inr given)

  ask-Kept :
      (c : Call) (past : List Call) (t : TokenManager) → Kept t past → Kept (ask c t).1 (c ∷ past)
  ask-Kept c past t known = elim (Bool-cases (ltb c.asked_at (t.expires_at - margin))) [
    | inl fresh ↦
        subst (λ v. Kept v (c ∷ past)) (sym (ap (λ r. r.1) (token-held c t fresh)))
          (older c past t known)
    | inr old ↦ elim (Result-cases (fetch_token cfg codec c.server)) [
      | inl ((tok, n), given) ↦ rw (token-fetched c t tok n old given) (inr (inl (n, given, refl)))
      | inr (e, refused) ↦
          subst (λ v. Kept v (c ∷ past)) (sym (token-refused c t e old refused).0)
            (older c past t known)
    ]
  ]

  kept-Kept : (past : List Call) → Kept (kept past) past
  unfolding kept
  kept-Kept [] = inl refl
  kept-Kept (c ∷ past) = ask-Kept c past (kept past) (kept-Kept past)

  -- `Token` gives out a token that the server has just given to this call, or has given to an
  -- earlier one, and then a minute at least before it expires.
  pub token-Fresh :
      (past : List Call) (c : Call) (tok : String)
      → (ask c (kept past)).0 ≡ ok tok
      → ((n : ℤ) × (fetch_token cfg codec c.server ≡ ok (tok, n)))
        ⊎ ((expires : ℕ) × (c.asked_at + margin < expires) × Among (Gave tok expires) past)
  token-Fresh past c tok answered =
      let t = kept past in
      elim (Bool-cases (ltb c.asked_at (t.expires_at - margin))) [
        | inl fresh ↦
            let same : t.token ≡ tok =
              ok-injective (sym (ap (λ r. r.0) (token-held c t fresh)) ∙ answered) in
            elim (kept-Kept past) [
              | inl zero ↦ absurd (ground arith)
              | inr given ↦ inr (
                t.expires_at,
                ground arith,
                subst (λ s. Among (Gave s t.expires_at) past) same given,
              )
            ]
        | inr old ↦ elim (Result-cases (fetch_token cfg codec c.server)) [
          | inl ((new, n), given) ↦
              let same : new ≡ tok =
                ok-injective (sym (ap (λ r. r.0) (token-fetched c t new n old given)) ∙ answered) in
              inl (n, subst (λ s. fetch_token cfg codec c.server ≡ ok (s, n)) same given)
          | inr (e, refused) ↦ let (x, failed) = (token-refused c t e old refused).1 in absurd (cc)
        ]
      ]
