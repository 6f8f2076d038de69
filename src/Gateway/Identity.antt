-- ===== src/Gateway/Identity.antt =====
-- Who a request is from, and what it is answered: api-gateway/src/middlewares/auth.middleware.js and
-- api-gateway/src/services/proxy.js.
use railway_booking_system.Base.{
  ℕ, ◌≡◌, refl, subst, ap, ◌∙◌, inl, inr, Bool, true, false, Bool-cases, Option-cases, none, some,
  List, [], ◌∷◌, ◌++◌, select, delete_where, ◌==◌,
}
use railway_booking_system.Errors.{ok}
use railway_booking_system.Breaker.{Breaker, admit}
use railway_booking_system.Gateway.{
  HeaderName, x_user_id, host, content_length, connection, keep_alive, transfer_encoding,
  other_header, names_user, names_dropped, expired, invalid, failed_with, Header, is_user_id,
  Incoming, Verified, valid, set_user, access_token, require_auth, with_payload, Outgoing,
  is_dropped, request_config, Called, forward_request, proxy, authorized, private_route,
}

name_kept : (n : HeaderName) → names_user n ≡ true → names_dropped n ≡ false
unfolding names_user names_dropped
name_kept host e = absurd cc
name_kept content_length e = absurd cc
name_kept x_user_id e = refl
name_kept connection e = refl
name_kept keep_alive e = refl
name_kept transfer_encoding e = refl
name_kept (other_header n) e = refl

user_id_kept : (h : Header) → is_user_id h ≡ true → is_dropped h ≡ false
unfolding is_user_id is_dropped
user_id_kept h e = name_kept h.name e

select-dropped :
    (hs : List Header) → select is_user_id (delete_where is_dropped hs) ≡ select is_user_id hs
select-dropped [] = refl
select-dropped (h ∷ hs) = elim (Bool-cases (is_user_id h)) [
  | inl e ↦ rw (user_id_kept h e, e) (ap (λ r. h ∷ r) (select-dropped hs))
  | inr e ↦ elim (Bool-cases (is_dropped h)) [
    | inl d ↦ rw (d, e) (select-dropped hs)
    | inr d ↦ rw (d, e) (select-dropped hs)
  ]
]

shown : (id : ℕ) → is_user_id (record { name = x_user_id; value = id }) ≡ true
unfolding is_user_id names_user
shown id = refl

select-set :
    (id : ℕ) (hs : List Header)
    → select is_user_id (delete_where is_user_id hs ++ record { name = x_user_id; value = id } ∷ [])
      ≡ record { name = x_user_id; value = id } ∷ []
select-set id [] =
    let e : is_user_id (record { name = x_user_id; value = id }) ≡ true = shown id in rw e refl
select-set id (h ∷ hs) = elim (Bool-cases (is_user_id h)) [
  | inl e ↦ rw e (select-set id hs)
  | inr e ↦ rw (e, e) (select-set id hs)
]

-- What a private route promises of a request that reaches the service.
IsIdentified : (id : ℕ) → Outgoing → Type 0
IsIdentified id sent = select is_user_id sent.headers ≡ record { name = x_user_id; value = id } ∷ []

module _ (start end : ℕ) (call : Outgoing → Called) (preserve_path : Bool) (req : Incoming)
    (b : Breaker) (sent : Outgoing) where
  forward_request-sent :
      (out : Outgoing) → (forward_request start end call out b).1 ≡ some sent → out ≡ sent
  unfolding forward_request
  forward_request-sent out h = elim (Option-cases (admit start b)) [
    | inl e ↦ absurd (let q : none ≡ some sent = (rw (forward_request, e) at h) in cc)
    | inr (b', e) ↦ let q : some out ≡ some sent = (rw (forward_request, e) at h) in cc
  ]

  sent-IsIdentified :
      (id : ℕ)
      → (authorized start end call preserve_path (ok (set_user id req)) b).1 ≡ some sent
      → IsIdentified id sent
  unfolding authorized proxy IsIdentified request_config set_user
  sent-IsIdentified id h =
      subst (λ o. select is_user_id o.headers ≡ record { name = x_user_id; value = id } ∷ [])
        (forward_request-sent (request_config preserve_path (set_user id req)) h)
        (select-dropped (set_user id req).headers ∙ select-set id req.headers)

  payload-IsIdentified :
      (v : Verified)
      → (authorized start end call preserve_path (with_payload req v) b).1 ≡ some sent
      → (id : ℕ) × (v ≡ valid id) × ((id == 0) ≡ false) × IsIdentified id sent
  unfolding with_payload authorized
  payload-IsIdentified (valid id) h = elim (Bool-cases (id == 0)) [
    | inl e ↦ absurd (let q : none ≡ some sent = (rw e at h) in cc)
    | inr e ↦ (id, refl, e, sent-IsIdentified id (rw e at h))
  ]
  payload-IsIdentified expired h = absurd (let q : none ≡ some sent = h in cc)
  payload-IsIdentified invalid h = absurd (let q : none ≡ some sent = h in cc)
  payload-IsIdentified (failed_with f) h = absurd (let q : none ≡ some sent = h in cc)

-- A request reaches the service by a private route only with a token that was verified, and the service
-- reads the user of that token in the header x-user-id, once: a header of that name that the client sent
-- itself does not get through.
pub private_route-identity :
    (verify : ℕ → Verified) (start end : ℕ) (call : Outgoing → Called) (preserve_path : Bool)
    (req : Incoming) (b : Breaker) (sent : Outgoing)
    → (private_route verify start end call preserve_path req b).1 ≡ some sent
    → (id : ℕ) × (verify (access_token req) ≡ valid id)
      × ((id == 0) ≡ false)
      × (select is_user_id sent.headers ≡ record { name = x_user_id; value = id } ∷ [])
unfolding private_route require_auth IsIdentified authorized
private_route-identity verify start end call preserve_path req b sent h =
    elim (Bool-cases (access_token req == 0)) [
      | inl e ↦ absurd (let q : none ≡ some sent = (rw e at h) in cc)
      | inr e ↦
          payload-IsIdentified start end call preserve_path req b sent (verify (access_token req))
            (rw e at h)
    ]
