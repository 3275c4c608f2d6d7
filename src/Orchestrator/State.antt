-- ===== src/Orchestrator/State.antt =====
-- internal/orchestrator/state.go.
use zia.Base.{Bool, List, [], ◌∷◌, any}
use zia.Domain.Intent.{
  PaymentIntentStatus, created, requires_action, processing, succeeded, failed, expired,
  partially_refunded, refunded, status_eq,
}

-- The map, which has no entry for a status from which nothing leaves.
unfoldable pub transitions : PaymentIntentStatus → List PaymentIntentStatus
transitions created = requires_action ∷ processing ∷ failed ∷ expired ∷ []
transitions requires_action = succeeded ∷ processing ∷ failed ∷ expired ∷ []
transitions processing = succeeded ∷ failed ∷ requires_action ∷ []
transitions succeeded = partially_refunded ∷ refunded ∷ []
transitions failed = []
transitions expired = []
transitions partially_refunded = []
transitions refunded = []

unfoldable pub is_valid_transition : PaymentIntentStatus → PaymentIntentStatus → Bool
unfolding transitions
is_valid_transition from to = any (λ allowed. status_eq allowed to) (transitions from)
