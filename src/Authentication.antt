-- ===== src/Authentication.antt =====
-- cmd/syncbridge/auth.go: the single account, the lock on logins after failures, and the sessions. Times
-- are nanoseconds, and the zero time is 0. The environment variables, the account file, bcrypt and the
-- drawn token are parameters; an HTTP answer is its status.
use sync_bridge.Base.{
  pos, negsuc, times64, int_ltb, ℤ, second, ℕ, ◌+◌, ◌-◌, ◌*◌, ltb, leb, String, Bool, true, false,
  not, ◌&&◌, ◌||◌, List, [], ◌∷◌, Option, none, some, lookup, insert, delete, ◌==◌, string_keyed,
  if◌then◌else◌,
}
pub mod Locking
mod Tests

pub record AuthFile : Type 0 where
  pub user : String
  pub hash : String

-- `sessionTTL`
abbrev pub session_ttl : ℕ
session_ttl = 604800 * second

pub record AuthState : Type 0 where
  pub sessions : List (String × ℕ)
  pub login_fails : ℕ
  pub login_until : ℕ

-- `envCreds`, whether the account file is there, `loadAuthFile` and `bcrypt.CompareHashAndPassword`.
pub record Credentials : Type 0 where
  pub env_user : String
  pub env_password : String
  pub account_exists : Bool
  pub account : Option AuthFile
  pub matches : String → String → Bool

-- `loginLocked`: the time left, if any.
unfoldable pub login_locked : ℕ → AuthState → Option ℕ
login_locked now a = if ltb now a.login_until then some (a.login_until - now) else none

-- The wait after this many failures, from the fifth on: a product of int64, which wraps.
abbrev pub backoff : ℕ → ℤ
backoff fails =
    let d = times64 (pos (fails - 4)) (30 * second) in
    if int_ltb (pos (900 * second)) d then pos (900 * second) else d

-- `now.Add(d)`
abbrev pub after_duration : ℕ → ℤ → ℕ
after_duration now (pos d) = now + d
after_duration now (negsuc d) = now - (d + 1)

-- `loginFail`
unfoldable pub login_fail : ℕ → AuthState → AuthState
unfolding times64
login_fail now a =
    let fails = a.login_fails + 1 in
    if leb 5 fails
    then record a { login_fails = fails; login_until = after_duration now (backoff fails) }
    else record a { login_fails = fails }

-- `loginOK`
abbrev pub login_ok : AuthState → AuthState
login_ok a = record a { login_fails = 0; login_until = 0 }

abbrev pub env_managed : Credentials → Bool
env_managed c = not (c.env_user == "") && not (c.env_password == "")

abbrev pub is_account : String → String → Credentials → Option AuthFile → Bool
is_account user pass c none = false
is_account user pass c (some account) = (user == account.user) && c.matches account.hash pass

-- `verifyCreds`
unfoldable pub verify_creds : String → String → Credentials → Bool
verify_creds user pass c =
    if env_managed c
    then (user == c.env_user) && (pass == c.env_password)
    else is_account user pass c c.account

-- `newSession`, with the token drawn.
unfoldable pub new_session : ℕ → String → AuthState → AuthState
new_session now token a = record a { sessions = insert token (now + session_ttl) a.sessions }

abbrev pub session_at : ℕ → String → AuthState → Option ℕ → AuthState × Bool
session_at now token a none = (a, false)
session_at now token a (some expiry) =
    if ltb expiry now then (record a { sessions = delete token a.sessions }, false) else (a, true)

-- `validSession`, on the cookie's value if the request has it. An expired session is removed.
unfoldable pub valid_session : ℕ → Option String → AuthState → AuthState × Bool
valid_session now none a = (a, false)
valid_session now (some token) a = session_at now token a (lookup token a.sessions)

-- One round of `pruneSessions`.
unfoldable pub live_sessions : ℕ → List (String × ℕ) → List (String × ℕ)
live_sessions now [] = []
live_sessions now ((token, expiry) ∷ more) =
    let rest = live_sessions now more in if ltb expiry now then rest else (token, expiry) ∷ rest

unfoldable pub prune_sessions : ℕ → AuthState → AuthState
unfolding live_sessions
prune_sessions now a = record a { sessions = live_sessions now a.sessions }

-- `clearSession`
unfoldable pub clear_session : Option String → AuthState → AuthState
clear_session none a = a
clear_session (some token) a = record a { sessions = delete token a.sessions }

pub data LoginAnswer : Type 0 where
  too_many_requests : ℕ → LoginAnswer
  unauthorized logged_in : LoginAnswer

-- `apiAuthLogin`. It holds the mutexes for its sections only: `between` is what other requests do from
-- `loginLocked` to the end of the check of the password, `behind` what they do from `loginOK` to
-- `newSession`. The clock reads `now` in the first section and `later` behind the check.
unfoldable pub api_auth_login :
    ℕ
    → ℕ
    → String
    → String
    → String
    → Credentials
    → (AuthState → AuthState)
    → (AuthState → AuthState)
    → AuthState
    → AuthState × LoginAnswer
unfolding login_locked login_fail new_session
api_auth_login now later user pass token c between behind a = elim (login_locked now a) [
  | some wait ↦ (a, too_many_requests wait)
  | none ↦
      if not (verify_creds user pass c)
      then (login_fail later (between a), unauthorized)
      else (new_session later token (behind (login_ok (between a))), logged_in)
]

pub data Served : Type 0 where
  handled rejected login_page : Served

-- `requireAuth`, on whether the path has one of the open prefixes and whether it is under `/api/`.
unfoldable pub require_auth : ℕ → Bool → Bool → Option String → AuthState → AuthState × Served
unfolding valid_session
require_auth now is_open is_api cookie a =
    let checked = valid_session now cookie a in
    if is_open
    then (a, handled)
    else (if checked.1
        then (checked.0, handled)
        else (checked.0, if is_api then rejected else login_page))

-- `authConfigured`
abbrev pub auth_configured : Credentials → Bool
auth_configured c = env_managed c || c.account_exists

pub data RegisterAnswer : Type 0 where
  forbidden bad_request not_hashed not_stored registered : RegisterAnswer

-- `apiAuthRegister` on the trimmed user: `size` counts bytes, `hash` is bcrypt, and `stored` says whether
-- the account file was written, `c'` being what a failed write leaves.
unfoldable pub api_auth_register :
    ℕ
    → (String → ℕ)
    → (String → Option String)
    → Bool
    → Credentials
    → String
    → String
    → String
    → Credentials
    → AuthState
    → Credentials × AuthState × RegisterAnswer
unfolding new_session
api_auth_register now size hash stored c' user pass token c a =
    if auth_configured c
    then (c, a, forbidden)
    else if ltb (size user) 3 || ltb (size pass) 6
    then (c, a, bad_request)
    else elim (hash pass) [
      | none ↦ (c, a, not_hashed)
      | some h ↦ if not stored then (c', a, not_stored) else (
        record c { account_exists = true; account = some (record { user = user; hash = h }) },
        new_session now token a,
        registered,
      )
    ]
