-- ===== src/Authentication/Locking.antt =====
-- The lock on logins and the sessions of auth.go.
use sync_bridge.Base.{
  times64, second, ℕ, ◌+◌, ◌-◌, ◌*◌, ◌≤◌, ◌<◌, ltb, leb, String, Bool, true, false, Option, none,
  some, lookup, string_keyed, ◌≡◌, refl, arith, Bool-cases, Option-cases, inl, inr, ltb→ge, ◌↔◌,
}
use sync_bridge.Authentication.{
  new_session, prune_sessions, clear_session, after_duration, logged_in, AuthState, Credentials,
  backoff, login_locked, login_fail, verify_creds, too_many_requests, api_auth_login, valid_session,
  handled, require_auth,
}

-- A section of another request, from `start` on: it counts a failure, opens, looks up or drops sessions.
-- Only a login that succeeds is left out, whose `loginOK` takes the lock away.
pub data AuthStep (start : ℕ) : AuthState → AuthState → Type 0 where
  fails : {a : AuthState} (now : ℕ) → start ≤ now → AuthStep start a (login_fail now a)
  opens : {a : AuthState} (now : ℕ) (token : String) → AuthStep start a (new_session now token a)
  looks_up :
      {a : AuthState} (now : ℕ) (cookie : Option String)
      → AuthStep start a (valid_session now cookie a).0
  prunes : {a : AuthState} (now : ℕ) → AuthStep start a (prune_sessions now a)
  leaves : {a : AuthState} (cookie : Option String) → AuthStep start a (clear_session cookie a)

pub data Follows (start : ℕ) : AuthState → AuthState → Type 0 where
  here : {a : AuthState} → Follows start a a
  next : {a b c : AuthState} → AuthStep start a b → Follows start b c → Follows start a c

-- Without a wrap: every failure from the fifth on waits for between half a minute and fifteen minutes.
backoff-bounds :
    (now count : ℕ)
    → 5 ≤ count
    → count ≤ 300000000
    → (now + 30 * second ≤ after_duration now (backoff count))
      × (after_duration now (backoff count) ≤ now + 900 * second)
unfolding times64
backoff-bounds now count enough small = ground arith

-- Locked until then, by five failures or more.
abbrev pub IsLocked : ℕ → AuthState → Type 0
IsLocked until a = (until ≤ a.login_until) × (5 ≤ a.login_fails)

login_fail_lem :
    (now : ℕ) (a : AuthState)
    → 4 ≤ a.login_fails
    → login_fail now a ≡ record a {
      login_fails = a.login_fails + 1;
      login_until = after_duration now (backoff (a.login_fails + 1));
    }
unfolding login_fail
login_fail_lem now a h =
    let counted : leb 5 (a.login_fails + 1) ≡ true = ground arith in rw counted refl

login_fail-IsLocked :
    (start now : ℕ) (a : AuthState)
    → start ≤ now
    → 4 ≤ a.login_fails
    → (login_fail now a).login_fails ≤ 300000000
    → IsLocked (start + 30 * second) (login_fail now a)
login_fail-IsLocked start now a from enough small = rw (login_fail_lem now a enough) (
  omega (
    arith,
    (backoff-bounds now (a.login_fails + 1) (omega arith)
        (rw (login_fail_lem now a enough) at small)).0,
  ),
  omega arith,
)

valid_session-keeps :
    (now : ℕ) (cookie : Option String) (a : AuthState)
    → ((valid_session now cookie a).0.login_fails ≡ a.login_fails)
      × ((valid_session now cookie a).0.login_until ≡ a.login_until)
unfolding valid_session
valid_session-keeps now none a = (refl, refl)
valid_session-keeps now (some token) a = elim (Option-cases (lookup token a.sessions)) [
  | inl q ↦ rw q (refl, refl)
  | inr (expiry, q) ↦
      rw q (elim (Bool-cases (ltb expiry now)) [
        | inl b ↦ rw b (refl, refl)
        | inr b ↦ rw b (refl, refl)
      ])
]

-- A section counts no failure back, and keeps a lock while the count is small.
AuthStep-grows : (start : ℕ) (a b : AuthState) → AuthStep start a b → a.login_fails ≤ b.login_fails
unfolding login_fail new_session prune_sessions clear_session
AuthStep-grows start a b (fails now from) = ground arith
AuthStep-grows start a b (opens now token) = omega arith
AuthStep-grows start a b (looks_up now cookie) = omega (arith, (valid_session-keeps now cookie a).0)
AuthStep-grows start a b (prunes now) = omega arith
AuthStep-grows start a b (leaves none) = omega arith
AuthStep-grows start a b (leaves (some token)) = omega arith

AuthStep-IsLocked :
    (start : ℕ) (a b : AuthState)
    → AuthStep start a b
    → b.login_fails ≤ 300000000
    → IsLocked (start + 30 * second) a
    → IsLocked (start + 30 * second) b
unfolding new_session prune_sessions clear_session
AuthStep-IsLocked start a b (fails now from) small locked =
    login_fail-IsLocked start now a from (omega (arith, locked.1)) small
AuthStep-IsLocked start a b (opens now token) small locked = locked
AuthStep-IsLocked start a b (looks_up now cookie) small locked =
    let kept = valid_session-keeps now cookie a in
    (omega (arith, kept.1, locked.0), omega (arith, kept.0, locked.1))
AuthStep-IsLocked start a b (prunes now) small locked = locked
AuthStep-IsLocked start a b (leaves none) small locked = locked
AuthStep-IsLocked start a b (leaves (some token)) small locked = locked

Follows-grows : (start : ℕ) (a b : AuthState) → Follows start a b → a.login_fails ≤ b.login_fails
Follows-grows start a b here = omega arith
Follows-grows start a b (next {b = m} step more) =
    omega (arith, AuthStep-grows start a m step, Follows-grows start m b more)

Follows-IsLocked :
    (start : ℕ) (a b : AuthState)
    → Follows start a b
    → b.login_fails ≤ 300000000
    → IsLocked (start + 30 * second) a
    → IsLocked (start + 30 * second) b
Follows-IsLocked start a b here small locked = locked
Follows-IsLocked start a b (next {b = m} step more) small locked =
    Follows-IsLocked start m b more small
      (AuthStep-IsLocked start a m step (omega (arith, Follows-grows start m b more, small)) locked)

locked_out :
    (now later : ℕ) (user pass token : String) (c : Credentials)
    (between behind : AuthState → AuthState) (a : AuthState)
    → now < a.login_until
    → api_auth_login now later user pass token c between behind a
      ≡ (a, too_many_requests (a.login_until - now))
unfolding api_auth_login login_locked
locked_out now later user pass token c between behind a h =
    let locked : ltb now a.login_until ≡ true = ground arith in rw (locked, api_auth_login) refl

lock_over : (now : ℕ) (a : AuthState) → a.login_until ≤ now → login_locked now a ≡ none
unfolding login_locked
lock_over now a h = ground arith

-- `loginFail` at the fifth failure in a row or a later one, in state `a` at time `now`. As long as no
-- login that is under way succeeds, whatever other sections follow up to a state `b`, and while at
-- most 300,000,000 failures are counted: a login that begins within thirty seconds, also with the right
-- credentials, is answered with too many requests and leaves the state.
pub login_fail-locks :
    (now : ℕ) (a b : AuthState)
    → 4 ≤ a.login_fails
    → Follows now (login_fail now a) b
    → b.login_fails ≤ 300000000
    → (later last : ℕ) (user pass token : String) (c : Credentials)
      (between behind : AuthState → AuthState)
    → later < now + 30 * second
    → (wait : ℕ) × (api_auth_login later last user pass token c between behind b
        ≡ (b, too_many_requests wait))
login_fail-locks now a b enough follows small later last user pass token c between behind h =
    let locked = Follows-IsLocked now (login_fail now a) b follows small (
      login_fail-IsLocked now now a (omega arith) enough
        (omega (arith, Follows-grows now (login_fail now a) b follows, small))) in
    (
      b.login_until - later,
      locked_out later last user pass token c between behind b (omega (arith, locked.0, h)),
    )

-- A lock of at most 300,000,000 failures is over fifteen minutes after the last of them at the latest, when
-- the password of the next login is checked: the login succeeds just with the right credentials.
pub login_fail-ends :
    (now : ℕ) (a : AuthState)
    → 4 ≤ a.login_fails
    → (login_fail now a).login_fails ≤ 300000000
    → (later last : ℕ) (user pass token : String) (c : Credentials)
      (between behind : AuthState → AuthState)
    → now + 900 * second ≤ later
    → ((api_auth_login later last user pass token c between behind (login_fail now a)).1
        ≡ logged_in)
      ↔ (verify_creds user pass c ≡ true)
unfolding api_auth_login
login_fail-ends now a enough small later last user pass token c between behind h =
    let over : login_locked later (login_fail now a) ≡ none = lock_over later (login_fail now a) (
      rw (login_fail_lem now a enough) (
        omega (
          arith,
          h,
          (backoff-bounds now (a.login_fails + 1) (omega arith)
              (rw (login_fail_lem now a enough) at small)).1,
        ))) in
    elim (Bool-cases (verify_creds user pass c)) [
      | inl v ↦ rw (over, v, api_auth_login) ((λ _. refl), (λ _. refl))
      | inr v ↦ rw (over, v, api_auth_login) ((λ q. absurd (cc q)), (λ q. absurd (cc q)))
    ]

-- Behind a closed path a request is served only with the cookie of a session that has not expired.
pub require_auth-handled :
    (now : ℕ) (is_api : Bool) (cookie : Option String) (a : AuthState)
    → (require_auth now false is_api cookie a).1 ≡ handled
    → (token : String) × (expiry : ℕ) × (cookie ≡ some token)
      × (lookup token a.sessions ≡ some expiry)
      × (now ≤ expiry)
unfolding require_auth valid_session
require_auth-handled now true none a h = absurd (cc h)
require_auth-handled now false none a h = absurd (cc h)
require_auth-handled now is_api (some token) a h = elim (Option-cases (lookup token a.sessions)) [
  | inl q ↦ absurd (ground (arith, q))
  | inr (expiry, q) ↦ elim (Bool-cases (ltb expiry now)) [
    | inl b ↦ absurd (ground (arith, q, b))
    | inr b ↦ (token, expiry, refl, q, ltb→ge expiry now b)
  ]
]

abbrev new_credentials : Credentials → String → String → Credentials
new_credentials c user h = record c {
  account_exists = true;
  account = some (record { user = user; hash = h });
}
