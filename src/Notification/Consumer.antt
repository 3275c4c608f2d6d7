-- ===== src/Notification/Consumer.antt =====
-- internal/notification/dispatcher.go, `processNotification` and the consumer, with the statements on
-- notifications of internal/repository/portal.go. What the merchant's server answers and whether its
-- URL can be used are parameters, and so is the JSON of a payload and of a merchant's settings.
use zia.Base.{
  ℕ, String, Bool, true, false, ◌<>◌, Option, none, some, List, [], ◌∷◌, ◌++◌, select, map, str_eq,
  nonempty, if◌then◌else◌,
}
use zia.Base.Int.{ℤ}
use zia.Base.Chars.{decimal}
use zia.Domain.Accounting.{Merchant}
use zia.Domain.Message.{NotificationEvent}
use zia.Domain.Portal.{Notification}
use zia.Effects.Failure.{ok, err}
use zia.Effects.World.{World, Env}
use zia.Effects.Action.{
  Action, Done, pure, lift, ◌>>=◌, ◌>>◌, wrapped, logged, exec, query, clock, new_uuid,
}
use zia.Portal.Tables.{merchant_by_id, latest_first}
use zia.Webhook.Stream.{Settlement, ack, nak}
use zia.Notification.Sender.{send_with_retry}

unfoldable pub create_notification : Env → Notification → Action Done
create_notification env n =
    exec env λ w. record w { api = record w.api { notifications = w.api.notifications ++ n ∷ [] } }

unfoldable pub list_notifications : Env → String → Action (List Notification)
list_notifications env merchant_id = query env λ w. ok (
    latest_first (λ n. n.created_at)
      (select (λ n. str_eq n.merchant_id merchant_id) w.api.notifications))

unfoldable pub mark_all_read : Env → String → Action Done
mark_all_read env merchant_id = exec env λ w.
    let write : Notification → Notification =
      λ n. if str_eq n.merchant_id merchant_id then record n { unread = false } else n in
    record w { api = record w.api { notifications = map write w.api.notifications } }

-- Tone, title and body.
unfoldable pub wording : NotificationEvent → String × (String × String)
wording evt =
    let payment = evt.psp <> " payment of " <> decimal evt.amount <> " " <> evt.currency in
    if str_eq evt.status "succeeded"
    then ("success", ("Payment Successful", payment <> " was successful"))
    else if str_eq evt.status "failed"
    then ("error", ("Payment Failed", payment <> " failed"))
    else ("info", ("Payment " <> evt.status, payment <> " is " <> evt.status))

abbrev pub notification_from_event : String → ℕ → NotificationEvent → Notification
notification_from_event id created evt = record {
  id = id;
  merchant_id = evt.merchant_id;
  tone = (wording evt).0;
  title = (wording evt).1.0;
  body = (wording evt).1.1;
  category = "payment";
  unread = true;
  created_at = created;
}

pub record NotificationPayload : Type 0 where
  pub event : String
  pub pi_id : String
  pub amount : ℤ
  pub currency : String
  pub psp : String
  pub status : String
  pub timestamp : ℕ

-- The key `psp` has the reference.
abbrev pub payload_of : NotificationEvent → NotificationPayload
payload_of evt = record {
  event = evt.event_type;
  pi_id = evt.pi_id;
  amount = evt.amount;
  currency = evt.currency;
  psp = evt.psp_reference;
  status = evt.status;
  timestamp = evt.timestamp;
}

-- What comes from outside. `settings` is the `webhook_url` of a configuration that decodes.
pub record Receiver : Type 0 where
  pub settings : String → Option String
  pub encode : NotificationPayload → String
  pub is_valid_url : String → Bool
  pub answer : String → String → ℕ → Option ℕ

module _ (env : Env) (receiver : Receiver) where
  -- `webhookURLFromConfig`
  abbrev pub webhook_url : Merchant → String
  webhook_url m =
      if nonempty m.settlement_config
      then (elim (receiver.settings m.settlement_config) [ none ↦ "" | some url ↦ url ])
      else ""

  unfoldable pub notify_url : String → NotificationEvent → Action Done
  notify_url url evt =
      if nonempty url
      then lift
          (send_with_retry (receiver.is_valid_url url)
            (receiver.answer url (receiver.encode (payload_of evt)))).0
      else pure tt

  unfoldable pub record_and_notify : NotificationEvent → Merchant → Action Done
  record_and_notify evt merchant = do
    id ← new_uuid env
    now ← clock env
    logged (create_notification env (notification_from_event id now evt))
    notify_url (webhook_url merchant) evt

  unfoldable pub process_notification : NotificationEvent → Action Done
  process_notification evt = do
    merchant ← wrapped "lookup merchant %s" (merchant_by_id env evt.merchant_id)
    record_and_notify evt merchant

  -- One round of the consumer's loop that has got a message: none where it does not decode.
  unfoldable pub consume_notification : Option NotificationEvent → World → Settlement × World
  consume_notification none w = (nak, w)
  consume_notification (some evt) w =
      let (r, w') = process_notification evt w in (elim r [ err _ ↦ nak | ok _ ↦ ack ], w')
