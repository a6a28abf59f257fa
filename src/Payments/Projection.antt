-- ===== src/Payments/Projection.antt =====
-- The projection of payloads in src/app/billing/payments.py, and the texts that the columns of
-- `payments` hold.
use ai_text.Prelude.{
  String, Bool, true, false, not, ◌&&◌, Option, none, some, List, [], ◌∷◌, ◌++◌, str_eq,
  if◌then◌else◌,
}
use ai_text.Database.{
  Json, Payload, PaymentChannel, apple_storekit, adapty, cloudpayments, PaymentKind, subscription,
  tokens, subscription_event, refund, PaymentStatus, received, granted, replayed, no_grant,
  rejected, refunded,
}

-- `_PAYLOAD_ALLOWLIST`
abbrev pub payload_allowlist : PaymentChannel → List String
payload_allowlist apple_storekit =
    "transactionId" ∷ "productId" ∷ "originalTransactionId" ∷ "environment" ∷ "expiresDate" ∷ []
payload_allowlist adapty =
    "profileEventId" ∷ "eventType" ∷ "transactionId" ∷ "vendorProductId" ∷ "isActive" ∷ "expiresAt"
    ∷ []
payload_allowlist cloudpayments =
    "paymentId" ∷ "productCode" ∷ "paymentType" ∷ "status" ∷ "paidAt" ∷ []

abbrev pub refund_payload_keys : List String
refund_payload_keys =
    "refundOf" ∷ "creditsRevoked" ∷ "creditsNotRecovered" ∷ "subscriptionRevoked" ∷ []

unfoldable pub contains : String → List String → Bool
contains k [] = false
contains k (j ∷ l) = if str_eq j k then true else contains k l

abbrev pub is_null : Json → Bool
is_null Json.null = true
is_null _ = false

unfoldable pub keep_allowed : List String → Payload → Payload
keep_allowed allowed [] = []
keep_allowed allowed ((k, v) ∷ p) =
    let rest = keep_allowed allowed p in
    if contains k allowed && not (is_null v) then (k, v) ∷ rest else rest

unfoldable pub sanitize_payload : PaymentChannel → Payload → Payload
unfolding keep_allowed contains
sanitize_payload channel payload =
    keep_allowed (payload_allowlist channel ++ refund_payload_keys) payload

abbrev pub channel_text : PaymentChannel → String
channel_text apple_storekit = "apple_storekit"
channel_text adapty = "adapty"
channel_text cloudpayments = "cloudpayments"

abbrev pub kind_text : PaymentKind → String
kind_text subscription = "subscription"
kind_text tokens = "tokens"
kind_text subscription_event = "subscription_event"
kind_text refund = "refund"

abbrev pub status_text : PaymentStatus → String
status_text received = "received"
status_text granted = "granted"
status_text replayed = "replayed"
status_text no_grant = "no_grant"
status_text rejected = "rejected"
status_text refunded = "refunded"

abbrev pub text_or_null : Option String → Json
text_or_null none = Json.null
text_or_null (some s) = Json.text s
