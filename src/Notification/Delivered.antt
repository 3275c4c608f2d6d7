-- ===== src/Notification/Delivered.antt =====
-- internal/notification/dispatcher.go: when the stream is told that a notification is done with, and
-- what is kept of it.
use zia.Base.{
  ℕ, suc, ◌≤◌, String, true, false, ◌≡◌, ◌≢◌, ◌↔◌, refl, sym, ap, ◌∙◌, ◌⊎◌, inl, inr, Option, some,
  [], ◌∷◌, ◌++◌, find, str_eq, str_eq_iff, nonempty, Bool-cases,
}
use zia.Domain.Accounting.{Merchant}
use zia.Domain.Message.{NotificationEvent}
use zia.Effects.Failure.{Result, ok, err}
use zia.Effects.World.{World, Env, tick}
use zia.Effects.Action.{Done, query, exec, clock, new_uuid, wrapped}
use zia.Effects.Cases.{bind_run}
use zia.Portal.Tables.{merchant_by_id}
use zia.Webhook.Stream.{Settlement, ack, nak}
use zia.Notification.Sender.{send_with_retry}
use zia.Notification.Delivery.{accepts, send_with_retry_iff}
use zia.Notification.Consumer.{
  Receiver, create_notification, notification_from_event, payload_of, webhook_url, notify_url,
  record_and_notify, process_notification, consume_notification,
}

verdict : Result Done → Settlement
verdict r = elim r [ err _ ↦ nak | ok _ ↦ ack ]

verdict_iff : (r : Result Done) → (verdict r ≡ ack) ↔ (r ≡ ok tt)
unfolding verdict
verdict_iff (ok tt) = (λ _. refl, λ _. refl)
verdict_iff (err e) = (λ h. cc, λ h. cc)

unusable : (answer : ℕ → Option ℕ) → (send_with_retry false answer).0 ≢ ok tt
unfolding send_with_retry
unusable answer h = cc

nonempty_iff : (s : String) → nonempty s ≡ true → s ≢ ""
nonempty_iff s named h = let empty : str_eq s "" ≡ true = (str_eq_iff s "").1 h in cc

empty_iff : (s : String) → nonempty s ≡ false → s ≡ ""
empty_iff s empty = elim (Bool-cases (str_eq s "")) [
  | inl same ↦ (str_eq_iff s "").0 same
  | inr other ↦ cc
]

module _ (env : Env) (receiver : Receiver) where
  -- A URL that can be used, whose server accepts one of the first four requests.
  abbrev pub Reached : String → NotificationEvent → Type 0
  Reached url evt =
      (receiver.is_valid_url url ≡ true)
      × ((n : ℕ) × (n ≤ 3)
          × (accepts (receiver.answer url (receiver.encode (payload_of evt)) n) ≡ true))

  sent_iff :
      (url : String) (evt : NotificationEvent)
      → let answer = receiver.answer url (receiver.encode (payload_of evt)) in
        ((send_with_retry (receiver.is_valid_url url) answer).0 ≡ ok tt) ↔ Reached url evt
  sent_iff url evt =
      let answer = receiver.answer url (receiver.encode (payload_of evt)) in
      let (there, back) = send_with_retry_iff answer in
      elim (Bool-cases (receiver.is_valid_url url)) [
        | inl valid ↦ rw valid (λ h. (refl, there h), λ h. back h.1)
        | inr invalid ↦ rw invalid (λ h. absurd (unusable answer h), λ h. cc)
      ]

  notified_iff :
      (url : String) (evt : NotificationEvent) (w : World)
      → ((notify_url env receiver url evt w).0 ≡ ok tt) ↔ ((url ≡ "") ⊎ Reached url evt)
  unfolding notify_url
  notified_iff url evt w = elim (Bool-cases (nonempty url)) [
    | inl named ↦
        let (there, back) = sent_iff url evt in
        rw named (
          λ h. inr (there h),
          λ r. elim r [
            | inl empty ↦ absurd (nonempty_iff url named empty)
            | inr reached ↦ back reached
          ],
        )
    | inr empty ↦ rw empty (λ h. inl (empty_iff url empty), λ r. refl)
  ]

  recorded :
      (evt : NotificationEvent) (m : Merchant) (w : World)
      → env.fails (suc (suc w.calls)) ≡ false
      → let n = notification_from_event (env.uuid w.calls) (env.now (suc w.calls)) evt in
        let v = record w {
          api = record w.api { notifications = w.api.notifications ++ n ∷ [] };
          calls = suc (suc (suc w.calls));
        } in
        record_and_notify env receiver evt m w
        ≡ notify_url env receiver (webhook_url env receiver m) evt v
  unfolding record_and_notify create_notification exec clock new_uuid
  recorded evt m w up = rw up refl

  notify_url-same :
      (url : String) (evt : NotificationEvent) (w : World)
      → (notify_url env receiver url evt w).1 ≡ w
  unfolding notify_url
  notify_url-same url evt w = elim (Bool-cases (nonempty url)) [
    | inl named ↦ rw named refl
    | inr empty ↦ rw empty refl
  ]

  -- Where nothing of ours fails and the merchant is on record, an event leaves one more notification,
  -- whatever becomes of it. The stream is told that it is done with exactly if the merchant has no
  -- webhook URL, or a URL that can be used and whose server accepts one of the first four requests.
  pub consume_notification_iff :
      (evt : NotificationEvent) (m : Merchant) (w : World)
      → ((n : ℕ) → env.fails n ≡ false)
      → find (λ x. str_eq x.id evt.merchant_id) w.merchants ≡ some m
      → let (settled, v) = consume_notification env receiver (some evt) w in
        let url = webhook_url env receiver m in
        (v.api.notifications
          ≡ w.api.notifications
            ++ notification_from_event (env.uuid (suc w.calls)) (env.now (suc (suc w.calls))) evt
              ∷ [])
        × ((settled ≡ ack) ↔ ((url ≡ "") ⊎ Reached url evt))
  unfolding consume_notification process_notification merchant_by_id query verdict
  consume_notification_iff evt m w up there =
      let url = webhook_url env receiver m in
      let n = notification_from_event (env.uuid (suc w.calls)) (env.now (suc (suc w.calls))) evt in
      let v = record w {
        api = record w.api { notifications = w.api.notifications ++ n ∷ [] };
        calls = suc (suc (suc (suc w.calls)));
      } in
      let run : process_notification env receiver evt w ≡ notify_url env receiver url evt v =
        bind_run (wrapped "lookup merchant %s" (merchant_by_id env evt.merchant_id))
          (record_and_notify env receiver evt) w (tick w) m (rw (up w.calls, there) refl)
        ∙ recorded evt m (tick w) (up (suc (suc (suc w.calls)))) in
      let (there_, back) = notified_iff url evt v in
      let (in_, out) = verdict_iff (notify_url env receiver url evt v).0 in
      let settles : (consume_notification env receiver (some evt) w).0
          ≡ verdict (notify_url env receiver url evt v).0 =
        ap (λ q. verdict q.0) run in
      (
        ap (λ q. q.1.api.notifications) run
            ∙ ap (λ x. x.api.notifications) (notify_url-same url evt v),
        (λ h. there_ (in_ (sym settles ∙ h)), λ h. settles ∙ out (back h)),
      )
