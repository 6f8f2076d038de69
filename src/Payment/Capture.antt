-- ===== src/Payment/Capture.antt =====
-- `handleWebhook` with its three handlers, and `verifyAndCapturePayment`, of
-- payment-service/src/services/payment.service.js.
use railway_booking_system.Base.{
  ℕ, ◌+◌, Bool, ◌&&◌, ◌||◌, not, Option, none, some, List, [], ◌∷◌, find_first, any, update_where,
  holds, leb, ◌==◌, if◌then◌else◌,
}
use railway_booking_system.Errors.{
  conflict, bad_request, invalid_signature, not_found_error, conflict_error, bad_request_error,
  database, unique_violation,
}
use railway_booking_system.Effects.{
  Act, pure, gets, fail, fail_if, or_fail, modify, answer, ◌>>=◌, ◌>>◌,
}
use railway_booking_system.Payment.Rows.{
  OrderStatus, created, captured, failed, partially_refunded, refunded, same_order_status,
  completed, same_refund_status, Reason, described, payment_failed, signature_verification_failed,
  PaymentOrder, Refund, WebhookEvent, payment_captured, payment_authorized, payment_failed_event,
  refund_processed, refund_created, other_event, webhook, signature_verified, signature_rejected,
  captured_via_verify, Published, payment_success, payment_failure, PayDb, Gateway,
}
use railway_booking_system.Payment.Orders.{is_order, write_order, log_audit, publish}

-- `payload.payload.payment.entity`
pub record PaymentEntity : Type 0 where
  pub order_id : ℕ
  pub id : ℕ
  pub auth_code : Option ℕ
  pub error_description : Option ℕ
  pub error_reason : Option ℕ

-- The parts of a webhook's body that are read; `refund` is the refund entity's id.
pub record WebhookPayload : Type 0 where
  pub event : WebhookEvent
  pub payment : Option PaymentEntity
  pub refund : Option ℕ

pub data WebhookResult : Type 0 where
  ignored_event : WebhookEvent → WebhookResult
  order_not_found no_refund_entity already_processed : WebhookResult
  invalid_state : OrderStatus → WebhookResult
  was_captured was_failed : (payment_order_id : ℕ) → WebhookResult
  was_refunded : (gateway_refund_id : ℕ) → WebhookResult

-- gatewayPaymentId is unique among the other orders.
unfoldable pub claims_payment : ℕ → ℕ → PaymentOrder → Bool
claims_payment id payment_id o = not (o.id == id) && holds o.gateway_payment_id payment_id

unfoldable pub write_paid_order :
    (id payment_id : ℕ) → (PaymentOrder → PaymentOrder) → Act PayDb (Unit {0})
unfolding claims_payment write_order
write_paid_order id payment_id f = do
  clash ← gets (λ db. any (claims_payment id payment_id) db.orders)
  fail_if clash (database unique_violation)
  write_order id f

unfoldable pub capture : ℕ → Option ℕ → PaymentOrder → PaymentOrder
capture payment_id signature o = record o {
  status = captured;
  gateway_payment_id = some payment_id;
  gateway_signature = signature;
  version = o.version + 1;
}

unfoldable pub success_of : PaymentOrder → ℕ → Published
success_of o payment_id = payment_success o.id o.booking_id payment_id o.amount

unfoldable pub handle_payment_captured :
    (Published → Bool) → PaymentOrder → PaymentEntity → Act PayDb WebhookResult
unfolding same_order_status capture write_paid_order publish success_of
handle_payment_captured accepts o entity =
    if same_order_status o.status captured
    then pure already_processed
    else if not (same_order_status o.status created)
    then pure (invalid_state o.status)
    else (do
      write_paid_order o.id entity.id (capture entity.id entity.auth_code)
      publish accepts (success_of o entity.id)
      pure (was_captured o.id))

unfoldable pub failure_reason : PaymentEntity → Reason
failure_reason entity = elim entity.error_description [
  | some d ↦ described d
  | none ↦ elim entity.error_reason [ some r ↦ described r | none ↦ payment_failed ]
]

unfoldable pub fail_payment : ℕ → Reason → PaymentOrder → PaymentOrder
fail_payment payment_id reason o = record o {
  status = failed;
  gateway_payment_id = some payment_id;
  failure_reason = some reason;
  version = o.version + 1;
}

unfoldable pub handle_payment_failed :
    (Published → Bool) → PaymentOrder → PaymentEntity → Act PayDb WebhookResult
unfolding same_order_status failure_reason fail_payment write_paid_order publish
handle_payment_failed accepts o entity =
    if same_order_status o.status failed
    then pure already_processed
    else if not (same_order_status o.status created)
    then pure (invalid_state o.status)
    else (do
      let reason = failure_reason entity
      write_paid_order o.id entity.id (fail_payment entity.id reason)
      publish accepts (payment_failure o.id o.booking_id reason)
      pure (was_failed o.id))

-- Σ amount of the refunds of one order that pass the test.
unfoldable pub total_of : (Refund → Bool) → List Refund → ℕ
total_of p [] = 0
total_of p (r ∷ rs) = let rest = total_of p rs in (if p r then r.amount else 0) + rest

unfoldable pub is_refund : ℕ → Refund → Bool
is_refund id r = r.id == id

unfoldable pub complete_refund : Refund → Refund
complete_refund r = record r { status = completed }

-- The refunds of the order that are COMPLETED, or the one that was just completed.
unfoldable pub counts_as_done : (order_id refund_id : ℕ) → Refund → Bool
unfolding same_refund_status
counts_as_done order_id refund_id r =
    r.payment_order_id == order_id && (same_refund_status r.status completed || r.id == refund_id)

unfoldable pub set_status : OrderStatus → PaymentOrder → PaymentOrder
set_status st o = record o { status = st; version = o.version + 1 }

unfoldable pub settle_refund : PaymentOrder → Refund → Act PayDb (Unit {0})
unfolding is_refund complete_refund counts_as_done total_of set_status write_order
settle_refund o r = do
  modify (λ db. record db { refunds = update_where (is_refund r.id) complete_refund db.refunds })
  total ← gets (λ db. total_of (counts_as_done o.id r.id) db.refunds)
  write_order o.id (set_status (if leb o.amount total then refunded else partially_refunded))

unfoldable pub handle_refund_processed : PaymentOrder → Option ℕ → Act PayDb WebhookResult
unfolding settle_refund
handle_refund_processed o none = pure no_refund_entity
handle_refund_processed o (some gateway_refund_id) = do
  found ←
      gets (λ db. find_first (λ (r : Refund). r.gateway_refund_id == gateway_refund_id) db.refunds)
  elim found [ none ↦ pure tt | some r ↦ settle_refund o r ]
  pure (was_refunded gateway_refund_id)

unfoldable pub handle_event :
    (Published → Bool)
    → WebhookEvent
    → PaymentOrder
    → PaymentEntity
    → Option ℕ
    → Act PayDb WebhookResult
unfolding handle_payment_captured handle_payment_failed handle_refund_processed
handle_event accepts payment_captured o entity refund = handle_payment_captured accepts o entity
handle_event accepts payment_authorized o entity refund = handle_payment_captured accepts o entity
handle_event accepts payment_failed_event o entity refund = handle_payment_failed accepts o entity
handle_event accepts refund_processed o entity refund = handle_refund_processed o refund
handle_event accepts refund_created o entity refund = handle_refund_processed o refund
handle_event accepts (other_event n) o entity refund = pure (ignored_event (other_event n))

module _ {Body : Type 0} (gateway : Gateway Body WebhookPayload) where
  unfoldable pub handle_entity : WebhookPayload → PaymentEntity → Act PayDb WebhookResult
  unfolding handle_event
  handle_entity payload entity = do
    found ←
        gets
          (λ db. find_first (λ (o : PaymentOrder). o.gateway_order_id == entity.order_id) db.orders)
    elim found [
      | none ↦ pure order_not_found
      | some o ↦ do
        log_audit o.id (webhook payload.event)
        handle_event gateway.accepts payload.event o entity payload.refund
    ]

  unfoldable pub handle_webhook : Body → (signature : ℕ) → Act PayDb WebhookResult
  unfolding handle_entity
  handle_webhook body signature = do
    fail_if (not (gateway.valid_webhook body signature)) (bad_request_error invalid_signature)
    payload ← answer (gateway.parse body)
    elim payload.payment [
      | none ↦ pure (ignored_event payload.event)
      | some entity ↦ handle_entity payload entity
    ]

  unfoldable pub reject_signature : PaymentOrder → Act PayDb (Option ℕ)
  unfolding write_order publish
  reject_signature o = do
    write_order o.id (λ (p : PaymentOrder). record p {
      status = failed;
      failure_reason = some signature_verification_failed;
      version = p.version + 1;
    })
    publish gateway.accepts (payment_failure o.id o.booking_id signature_verification_failed)
    fail (bad_request_error invalid_signature)

  unfoldable pub capture_verified : PaymentOrder → (payment_id signature : ℕ) → Act PayDb (Option ℕ)
  unfolding capture write_paid_order publish success_of
  capture_verified o payment_id signature = do
    write_paid_order o.id payment_id (capture payment_id (some signature))
    log_audit o.id captured_via_verify
    publish gateway.accepts (success_of o payment_id)
    pure (some payment_id)

  unfoldable pub verify_signature : PaymentOrder → (payment_id signature : ℕ) → Act PayDb (Option ℕ)
  unfolding reject_signature capture_verified
  verify_signature o payment_id signature = do
    let is_valid = gateway.valid_payment o.gateway_order_id payment_id signature
    log_audit o.id (if is_valid then signature_verified else signature_rejected)
    if is_valid then capture_verified o payment_id signature else reject_signature o

  -- The order's status decides.
  unfoldable pub verify_order : PaymentOrder → (payment_id signature : ℕ) → Act PayDb (Option ℕ)
  unfolding same_order_status verify_signature
  verify_order o payment_id signature =
      if same_order_status o.status captured
      then pure o.gateway_payment_id
      else if not (same_order_status o.status created)
      then fail (conflict_error conflict)
      else verify_signature o payment_id signature

  -- The result is the gateway's payment id of the captured order.
  unfoldable pub verify_and_capture_payment :
      (payment_order_id payment_id signature : ℕ) → Act PayDb (Option ℕ)
  unfolding is_order verify_order
  verify_and_capture_payment payment_order_id payment_id signature = do
    fail_if (payment_order_id == 0 || payment_id == 0 || signature == 0)
        (bad_request_error bad_request)
    found ← gets (λ db. find_first (is_order payment_order_id) db.orders)
    o ← or_fail found not_found_error
    verify_order o payment_id signature
