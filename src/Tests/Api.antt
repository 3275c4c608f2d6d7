-- ===== src/Tests/Api.antt =====
-- The checkout and the settings of a merchant at concrete inputs.
use zia.Base.{String, ◌≡◌, refl, none, some, find, true}
use zia.Base.Int.{ℤ, pos}
use zia.Effects.World.{World}
use zia.Base.Dict.{lookup}
use zia.Orchestrator.Create.{CreateResult}
use zia.Orchestrator.Idempotent.{create_payment_intent-known}
use zia.Notification.Consumer.{Receiver, webhook_url}
use zia.Api.Handler.{answered}
use zia.Api.Checkout.{
  CheckoutRequest, CheckoutView, create_checkout, checkout_status, build_request,
}
use zia.Api.Checkout.Polled.{create_checkout-checkout_status}
use zia.Api.Settings.{update_settings, get_settings}
use zia.Api.Settings.Kept.{has_name, update_settings-webhook_url}
use zia.Tests.Fixtures.{calm, merchant, waiting, routing, encode, open_books}

abbrev basket : CheckoutRequest
basket = record {
  amount = pos 1000;
  currency = "KES";
  method = "";
  customer_email = "";
  customer_phone = "254700000000";
  callback_url = "";
}

abbrev page : ℤ → String → String
page amount currency = currency

abbrev taken : CreateResult
taken = record { payment_intent = waiting; next_action = none }

abbrev paying : World
paying = record open_books {
  api =
      (create_checkout calm routing encode page "m_1" (some ("order_1", some basket))
        open_books).1.api;
}

create_checkout-checkout_status_example :
    let view : CheckoutView = record {
      token = "cs_new";
      payment_intent_id = "pi_1";
      expires_at = 1_800_000_000_002;
      status = waiting.status;
      next_action = none;
    } in
    ((create_checkout calm routing encode page "m_1" (some ("order_1", some basket)) open_books).0
      ≡ answered view)
    × ((checkout_status calm "cs_new" paying).0
        ≡ answered (record {
          token = "cs_new";
          payment_intent_id = "pi_1";
          status = waiting.status;
          amount = pos 1000;
          currency = "KES";
        }))
unfolding lookup
create_checkout-checkout_status_example =
    create_checkout-checkout_status calm (λ _. refl) routing encode page "m_1" "order_1" basket
      taken waiting open_books (record open_books { calls = 2 }) paying refl refl
      (create_payment_intent-known calm routing encode (build_request "m_1" "order_1" basket)
        open_books waiting refl refl refl refl refl refl)
      refl refl refl

abbrev listener : Receiver
listener = record {
  settings = λ config. some config;
  encode = λ p. p.event;
  is_valid_url = λ _. true;
  answer = λ url body n. none;
}

abbrev shop_site : String
shop_site = "https://shop.example"

abbrev moved : World
moved = (update_settings calm (λ url. url) "m_1" (some (some shop_site)) open_books).1

update_settings-webhook_url_example :
    let kept = record merchant { settlement_config = shop_site } in
    ((update_settings calm (λ url. url) "m_1" (some (some shop_site)) open_books).0
      ≡ answered shop_site)
    × ((get_settings calm listener.settings "m_1" moved).0 ≡ answered (kept, shop_site))
    × (find (has_name "m_1") moved.merchants ≡ some kept)
    × (webhook_url calm listener kept ≡ shop_site)
update_settings-webhook_url_example =
    update_settings-webhook_url calm (λ _. refl) listener (λ url. url) "m_1" shop_site merchant
      open_books moved refl refl refl refl refl
