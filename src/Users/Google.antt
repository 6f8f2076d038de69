-- ===== src/Users/Google.antt =====
-- Signing in with Google: `verifyGoogleIdToken` of user-service/src/services/auth.service.js.
use railway_booking_system.Base.{
  ℕ, ◌≡◌, refl, false, none, some, find_first, find_first-append, any, ==_refl, ◌==◌,
}
use railway_booking_system.Errors.{ok}
use railway_booking_system.Effects.{bind-ok}
use railway_booking_system.Users.Rows.{User, AuthProvider, safe_user, World, Jwt, on_redis, skip_id}
use railway_booking_system.Users.Auth.{
  has_email, has_user_id, has_provider_id, GooglePayload, link_provider, linked_user, is_linked,
  link_existing, by_email, by_provider, google_user, verify_google_id_token, open_session, issue,
  cache_user, LoggedIn,
}

unfoldable pub IsComplete : GooglePayload → Type 0
IsComplete p = ((p.sub == 0) ≡ false) × ((p.email == 0) ≡ false)

module _ (jwt : Jwt) (device_id : ℕ) where
  signed_in :
      (now : ℕ) (p : GooglePayload) (u : User) (w w' : World)
      → IsComplete p
      → google_user p w ≡ (ok u, w')
      → verify_google_id_token (ok p) jwt now device_id w ≡ open_session jwt now device_id u w'
  unfolding verify_google_id_token IsComplete
  signed_in now p u w w' (s, e) h =
      let q = bind-ok (google_user p) (open_session jwt now device_id) w h in rw (s, e) q

  google_user-linked :
      (p : GooglePayload) (link : AuthProvider) (u : User) (w : World)
      → find_first (has_provider_id p.sub) w.providers ≡ some link
      → find_first (has_user_id link.user_id) w.users ≡ some u
      → google_user p w ≡ (ok u, w)
  unfolding google_user by_provider linked_user
  google_user-linked p link u w h k = rw (h, k) refl

  link_existing-result :
      (p : GooglePayload) (u : User) (w : World)
      → any (is_linked u.id) w.providers ≡ false
      → link_existing p u w ≡ (ok u, link_provider p.sub u.id w)
  unfolding link_existing
  link_existing-result p u w l = rw l refl

  google_user-email :
      (p : GooglePayload) (u : User) (w : World)
      → find_first (has_provider_id p.sub) w.providers ≡ none
      → find_first (has_email p.email) w.users ≡ some u
      → any (is_linked u.id) w.providers ≡ false
      → google_user p w ≡ (ok u, link_provider p.sub u.id w)
  unfolding google_user by_provider by_email
  google_user-email p u w h k l = rw (h, k) (link_existing-result p u w l)

  -- Somebody whose Google account is not linked yet, and whose email is that of an account without a
  -- link, is signed in to that account, whether or not Google has verified the email; and so is whoever
  -- shows the same Google account later, with any email.
  pub verify_google_id_token-links :
      (now later : ℕ) (p q : GooglePayload) (u : User) (w : World)
      → IsComplete p
      → IsComplete q
      → q.sub ≡ p.sub
      → find_first (has_provider_id p.sub) w.providers ≡ none
      → find_first (has_email p.email) w.users ≡ some u
      → find_first (has_user_id u.id) w.users ≡ some u
      → any (is_linked u.id) w.providers ≡ false
      → (let first = verify_google_id_token (ok p) jwt now device_id w in
          let second = verify_google_id_token (ok q) jwt later device_id first.1 in
          ((t : LoggedIn) × (first.0 ≡ ok t) × (t.logged_in_user ≡ safe_user u))
          × ((t : LoggedIn) × (second.0 ≡ ok t) × (t.logged_in_user ≡ safe_user u)))
  unfolding open_session issue cache_user on_redis skip_id link_provider has_provider_id
  verify_google_id_token-links now later p q u w pc qc same h k i l =
      let link : AuthProvider = record { provider_id = p.sub; user_id = u.id } in
      let w1 = (open_session jwt now device_id u (link_provider p.sub u.id w)).1 in
      let found : find_first (has_provider_id q.sub) w1.providers ≡ some link =
        rw same (find_first-append (has_provider_id p.sub) w.providers link h (==_refl p.sub)) in
      let first =
        signed_in now p u w (link_provider p.sub u.id w) pc (google_user-email p u w h k l) in
      let second = signed_in later q u w1 w1 qc (google_user-linked q link u w1 found i) in
      rw (first, second) ((_, refl, refl), (_, refl, refl))
