-- ===== src/Payment/Rows.antt =====
-- The tables of payment-service (payment-service/prisma/schema.prisma), and the gateway behind
-- payment-service/src/services/gateways/base.gateway.js. Amounts are in the currency's smallest unit
-- and not negative. The currency, the provider's name and the stored gateway answers are left out.
use railway_booking_system.Base.{ℕ, Bool, true, false, Option, List}
use railway_booking_system.Errors.{Result}

pub data OrderStatus : Type 0 where
  created captured failed refund_initiated partially_refunded refunded : OrderStatus

unfoldable pub same_order_status : OrderStatus → OrderStatus → Bool
same_order_status created created = true
same_order_status captured captured = true
same_order_status failed failed = true
same_order_status refund_initiated refund_initiated = true
same_order_status partially_refunded partially_refunded = true
same_order_status refunded refunded = true
same_order_status _ _ = false

pub data RefundStatus : Type 0 where
  initiated completed refund_failed : RefundStatus

unfoldable pub same_refund_status : RefundStatus → RefundStatus → Bool
same_refund_status initiated initiated = true
same_refund_status completed completed = true
same_refund_status refund_failed refund_failed = true
same_refund_status _ _ = false

-- A failure's reason is a description of the gateway's, or one of the service's own.
pub data Reason : Type 0 where
  described : ℕ → Reason
  payment_failed signature_verification_failed : Reason

pub record PaymentOrder : Type 0 where
  pub id : ℕ
  pub booking_id : ℕ
  pub user_id : ℕ
  pub amount : ℕ
  pub status : OrderStatus
  pub idempotency_key : ℕ
  pub gateway_order_id : ℕ
  pub gateway_payment_id : Option ℕ
  pub gateway_signature : Option ℕ
  pub failure_reason : Option Reason
  pub version : ℕ

pub record Refund : Type 0 where
  pub id : ℕ
  pub payment_order_id : ℕ
  pub amount : ℕ
  pub reason : Option ℕ
  pub status : RefundStatus
  pub idempotency_key : ℕ
  pub gateway_refund_id : ℕ

pub data WebhookEvent : Type 0 where
  payment_captured payment_authorized payment_failed_event : WebhookEvent
  refund_processed refund_created : WebhookEvent
  other_event : ℕ → WebhookEvent

pub data AuditAction : Type 0 where
  order_created signature_verified signature_rejected captured_via_verify : AuditAction
  refund_requested : AuditAction
  webhook : WebhookEvent → AuditAction

pub record Audit : Type 0 where
  pub payment_order_id : ℕ
  pub action : AuditAction

-- What the service publishes on its streams.
pub data Published : Type 0 where
  payment_success : (payment_order_id booking_id gateway_payment_id amount : ℕ) → Published
  payment_failure : (payment_order_id booking_id : ℕ) → Reason → Published

pub data IdempotencyKey : Type 0 where
  order_key refund_key : ℕ → IdempotencyKey

pub record OrderResponse : Type 0 where
  pub payment_order_id : ℕ
  pub gateway_order_id : ℕ
  pub amount : ℕ
  pub status : OrderStatus

pub record RefundResponse : Type 0 where
  pub refund_id : ℕ
  pub payment_order_id : ℕ
  pub status : RefundStatus
  pub amount : ℕ
  pub gateway_refund_id : ℕ

pub data Response : Type 0 where
  order_response : OrderResponse → Response
  refund_response : RefundResponse → Response

pub record Record : Type 0 where
  pub key : IdempotencyKey
  pub response : Response

pub record PayDb : Type 0 where
  pub orders : List PaymentOrder
  pub refunds : List Refund
  pub audits : List Audit
  pub records : List Record
  pub events : List Published
  pub next_id : ℕ

-- What the gateway answers, its checks of signatures, how a body parses, and whether Redis takes an
-- event.
pub record Gateway (Body Payload : Type 0) : Type 0 where
  pub create_order : (amount booking_id : ℕ) → Result ℕ
  pub initiate_refund : (payment_id amount : ℕ) → Result ℕ
  pub valid_payment : (order_id payment_id signature : ℕ) → Bool
  pub valid_webhook : Body → ℕ → Bool
  pub parse : Body → Result Payload
  pub accepts : Published → Bool
