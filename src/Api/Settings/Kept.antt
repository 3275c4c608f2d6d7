-- ===== src/Api/Settings/Kept.antt =====
-- internal/api/merchant.go and internal/notification/dispatcher.go: the URL that a merchant sets is the
-- one that it is shown and that it is told at.
use zia.Base.{
  ℕ, String, Bool, true, false, ◌≡◌, refl, sym, ap, ◌∙◌, inl, inr, Option, none, some, List, [],
  ◌∷◌, find, str_eq, nonempty, Bool-cases,
}
use zia.Domain.Accounting.{Merchant}
use zia.Effects.World.{World, Env, tick}
use zia.Effects.Action.{exec, query}
use zia.Portal.Tables.{merchant_by_id}
use zia.Notification.Consumer.{Receiver, webhook_url}
use zia.Api.Handler.{Handler, answered, refused, ◌>>=◌, answer, attempt}
use zia.Api.Sequences.{attempt-ok, require-true}
use zia.Api.Settings.{
  with_config, update_settlement_config, save_settings, update_settings, shown_url, get_settings,
}

abbrev pub has_name : String → Merchant → Bool
has_name id m = str_eq m.id id

find-with_config :
    (id config : String) (ms : List Merchant) (m : Merchant)
    → find (has_name id) ms ≡ some m
    → find (has_name id) (with_config id config ms) ≡ some (record m { settlement_config = config })
unfolding with_config
find-with_config id config [] m here = cc
find-with_config id config (x ∷ ms) m here = elim (Bool-cases (has_name id x)) [
  | inl this ↦
      let same : ◌≡◌ {A = Option Merchant} (some x) (some m) = sym (rw this refl) ∙ here in
      let write : Option Merchant → Option Merchant =
        λ o. elim o [ none ↦ none | some k ↦ some (record k { settlement_config = config }) ] in
      rw this (rw this (ap write same))
  | inr other ↦
      let later : find (has_name id) ms ≡ some m = sym (rw other refl) ∙ here in
      rw other (rw other (find-with_config id config ms m later))
]

module _ (env : Env) (up : (n : ℕ) → env.fails n ≡ false) (receiver : Receiver)
    (encode : String → String) where
  saved :
      (m url : String) (w : World)
      → nonempty m ≡ true
      → update_settings env encode m (some (some url)) w
        ≡ (answered url, tick (record w { merchants = with_config m (encode url) w.merchants }))
  unfolding update_settings save_settings update_settlement_config exec
  saved m url w named =
      require-true (nonempty m) (refused 401 "1002" "unauthorized")
        (save_settings env m (encode url) url) w named
      ∙ attempt-ok (update_settlement_config env m (encode url))
          (refused 500 "500" "failed to save settings") (λ _. answer url) w
          (tick (record w { merchants = with_config m (encode url) w.merchants })) tt
          (rw (up w.calls) refl)

  shown :
      (id : String) (m : Merchant) (w : World)
      → nonempty id ≡ true
      → find (has_name id) w.merchants ≡ some m
      → (get_settings env receiver.settings id w).0 ≡ answered (m, shown_url receiver.settings m)
  unfolding get_settings merchant_by_id query
  shown id m w named here =
      let show : Merchant → Handler (Merchant × String) =
        λ x. answer (x, shown_url receiver.settings x) in
      let ask = attempt (merchant_by_id env id) (refused 404 "404" "merchant not found") in
      ap (λ q. q.0)
        (require-true (nonempty id) (refused 401 "1002" "unauthorized") (ask >>= show) w named
          ∙ attempt-ok (merchant_by_id env id) (refused 404 "404" "merchant not found") show w
              (tick w) m (rw (up w.calls, here) refl))

  -- Where nothing of ours fails and the JSON of settings decodes to what it was made of, a merchant on
  -- record that sets a URL is answered with it. While the merchants stay, the settings show that URL,
  -- and it is the one to which notifications of the merchant are sent.
  pub update_settings-webhook_url :
      (id url : String) (m : Merchant) (w later : World)
      → nonempty id ≡ true
      → nonempty (encode url) ≡ true
      → receiver.settings (encode url) ≡ some url
      → find (has_name id) w.merchants ≡ some m
      → later.merchants ≡ (update_settings env encode id (some (some url)) w).1.merchants
      → let kept = record m { settlement_config = encode url } in
        ((update_settings env encode id (some (some url)) w).0 ≡ answered url)
        × ((get_settings env receiver.settings id later).0 ≡ answered (kept, url))
        × (find (has_name id) later.merchants ≡ some kept)
        × (webhook_url env receiver kept ≡ url)
  update_settings-webhook_url id url m w later named made decodes here same =
      let kept = record m { settlement_config = encode url } in
      let run = saved id url w named in
      let there : find (has_name id) later.merchants ≡ some kept =
        ap (find (has_name id)) (same ∙ ap (λ q. q.1.merchants) run)
        ∙ find-with_config id (encode url) w.merchants m here in
      let reads : shown_url receiver.settings kept ≡ url = rw made (rw decodes refl) in
      (
        ap (λ q. q.0) run,
        shown id kept later named there ∙ ap (λ u. answered (kept, u)) reads,
        there,
        reads,
      )
