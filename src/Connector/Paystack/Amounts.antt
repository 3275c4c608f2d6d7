-- ===== src/Connector/Paystack/Amounts.antt =====
-- internal/connector/paystack/connector.go: what is charged is what is reported.
use zia.Base.{String, true, ◌≡◌, refl, ap, ◌∙◌, inl, inr, some, Bool-cases, arith, ◌<>◌}
use zia.Base.Int.{ℤ, pos, negsuc, ◌*ℤ◌, ◌/ℤ◌}
use zia.Base.Word.{InRange, i64_exact}
use zia.Domain.Message.{CollectionRequest}
use zia.Effects.Failure.{ok}
use zia.Connector.Http.{HttpReply, Server, ◌>>=◌, parse, then-ok, send-ok, parse-ok}
use zia.Connector.Paystack

times-over : (a : ℤ) → (a *ℤ pos 100) /ℤ 100 ≡ a
unfolding ◌*ℤ◌ ◌/ℤ◌
times-over (pos n) = ground arith
times-over (negsuc n) = ground arith

-- An amount in Paystack's units, read back.
pub from-to :
    (amount : ℤ) (currency : String)
    → InRange (amount *ℤ pos 100)
    → Paystack.from_paystack_amount (Paystack.to_paystack_amount amount currency) currency ≡ amount
unfolding Paystack.from_paystack_amount Paystack.to_paystack_amount
from-to amount currency fits = elim (Bool-cases (Paystack.cents_currency currency)) [
  | inl cents ↦
      rw cents (ap (λ x. x /ℤ 100) (i64_exact (amount *ℤ pos 100) fits) ∙ times-over amount)
  | inr whole ↦ rw whole refl
]

module _ (cfg : Paystack.PaystackConfig) (json : Paystack.PaystackJson) (server : Server)
    (req : CollectionRequest) (fits : InRange (req.amount *ℤ pos 100)) where
  -- The amount that `InitiateCollection` asks for.
  abbrev pub asked : ℤ
  asked = (Paystack.init_body req).amount

  verified-reported :
      (reference : String) (reply : HttpReply) (r : Paystack.VerifyResponse)
      → server (Paystack.request cfg json server "GET" ("/transaction/verify/" <> reference) "")
        ≡ some reply
      → json.verify_response reply.body ≡ some r
      → r.status ≡ true
      → r.data_status ≡ "success"
      → r.currency ≡ req.currency
      → r.amount ≡ asked
      → Paystack.get_status cfg json server reference
        ≡ ok (record {
          supported = true;
          status = "succeeded";
          amount = req.amount;
          currency = req.currency;
        })
  unfolding Paystack.get_status Paystack.from_paystack_amount
  verified-reported reference reply r replied decoded good done currency amount =
      then-ok _
        (λ rep. parse json.verify_response "parse paystack verify" rep.body >>= λ x.
          ok (Paystack.verified x))
        reply (send-ok server "paystack verify" _ reply replied)
      ∙ then-ok _ (λ x. ok (Paystack.verified x)) r
          (parse-ok json.verify_response "parse paystack verify" reply.body r decoded)
      ∙ rw (good, done, currency, amount)
          (ap
            (λ x. ok (record {
              supported = true;
              status = "succeeded";
              amount = x;
              currency = req.currency;
            }))
            (from-to req.amount req.currency fits))

  charge-reported :
      (body raw : String) (d : Paystack.EventData)
      → json.event body ≡ some ("charge.success", raw)
      → json.charge raw ≡ some d
      → d.currency ≡ req.currency
      → d.amount ≡ asked
      → Paystack.parse_webhook json body
        ≡ ok (record (Paystack.event_with "charge.success" "succeeded" body d) {
          amount = req.amount;
        })
  unfolding Paystack.parse_webhook Paystack.event_of
  charge-reported body raw d named decoded currency amount =
      ap (λ m. m >>= Paystack.event_of json body)
        (parse-ok json.event "parse paystack webhook" body ("charge.success", raw) named)
      ∙ ap (λ m. m >>= λ x. ok (Paystack.event_with "charge.success" "succeeded" body x))
          (parse-ok json.charge "parse charge.success data" raw d decoded)
      ∙ ap
          (λ x.
            ok (record (Paystack.event_with "charge.success" "succeeded" body d) { amount = x }))
          (rw (currency, amount) (from-to req.amount req.currency fits))

  -- A charge that Paystack takes as `InitiateCollection` asks for it, in the request's currency, is
  -- reported as succeeded with the amount of the request, to the last unit: by `GetStatus`, where
  -- Paystack verifies it, and by `ParseWebhook`, where Paystack tells of it by `charge.success`. A
  -- hundred times the amount has to be an int64.
  pub reported-asked :
      (reference body raw : String) (reply : HttpReply) (r : Paystack.VerifyResponse)
      (d : Paystack.EventData)
      → server (Paystack.request cfg json server "GET" ("/transaction/verify/" <> reference) "")
        ≡ some reply
      → json.verify_response reply.body ≡ some r
      → r.status ≡ true
      → r.data_status ≡ "success"
      → r.currency ≡ req.currency
      → r.amount ≡ asked
      → json.event body ≡ some ("charge.success", raw)
      → json.charge raw ≡ some d
      → d.currency ≡ req.currency
      → d.amount ≡ asked
      → (Paystack.get_status cfg json server reference
          ≡ ok (record {
            supported = true;
            status = "succeeded";
            amount = req.amount;
            currency = req.currency;
          }))
        × (Paystack.parse_webhook json body
            ≡ ok (record (Paystack.event_with "charge.success" "succeeded" body d) {
              amount = req.amount;
            }))
  reported-asked reference body raw reply r d replied verifies good done c₁ a₁ named decoded c₂ a₂ =
      (
        verified-reported reference reply r replied verifies good done c₁ a₁,
        charge-reported body raw d named decoded c₂ a₂,
      )
