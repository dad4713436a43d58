-- ===== src/Authentication/Tests.antt =====
-- An account with the password "secret", four failures, and one session.
use sync_bridge.Base.{
  second, ℕ, ◌+◌, ◌*◌, ◌≤◌, String, true, false, [], ◌∷◌, some, none, lookup, string_keyed, ◌==◌,
  ◌≡◌, refl, arith, times64, ◌↔◌,
}
use sync_bridge.Authentication.{
  AuthState, Credentials, verify_creds, too_many_requests, api_auth_login, valid_session,
  require_auth, login_fail, clear_session, logged_in,
}
use sync_bridge.Authentication.Locking.{
  login_fail-locks, login_fail-ends, here, next, fails, leaves, require_auth-handled,
}

abbrev creds : Credentials
creds = record {
  env_user = "";
  env_password = "";
  account_exists = true;
  account = some (record { user = "admin"; hash = "#secret" });
  matches = λ hash pass. pass == "secret";
}

abbrev state : AuthState
state = record { sessions = ("key", 500) ∷ []; login_fails = 4; login_until = 0 }

login_fail-locks_example :
    (wait : ℕ) × (api_auth_login 300 400 "admin" "secret" "new" creds
        (λ a. a)
        (λ a. a)
        (clear_session (some "key") (login_fail 200 (login_fail 100 state)))
      ≡ (
        clear_session (some "key") (login_fail 200 (login_fail 100 state)),
        too_many_requests wait,
      ))
unfolding login_fail clear_session times64
login_fail-locks_example =
    login_fail-locks 100 state (clear_session (some "key") (login_fail 200 (login_fail 100 state)))
      (omega arith) (next (fails 200 (omega arith)) (next (leaves (some "key")) here)) (omega arith)
      300 400 "admin" "secret" "new" creds (λ a. a) (λ a. a) (omega arith)

login_fail-ends_example :
    ((api_auth_login
        (100 + 900 * second)
        (200 + 900 * second)
        "admin"
        "secret"
        "new"
        creds
        (λ a. a)
        (λ a. a)
        (login_fail 100 state)).1
      ≡ logged_in)
    ↔ (verify_creds "admin" "secret" creds ≡ true)
unfolding login_fail times64
login_fail-ends_example =
    login_fail-ends 100 state (omega arith) (omega arith) (100 + 900 * second) (200 + 900 * second)
      "admin" "secret" "new" creds (λ a. a) (λ a. a) (omega arith)

require_auth-handled_example :
    (token : String) × (expiry : ℕ) × (some "key" ≡ some token)
    × (lookup token state.sessions ≡ some expiry)
    × (400 ≤ expiry)
unfolding require_auth valid_session lookup
require_auth-handled_example = require_auth-handled 400 true (some "key") state refl

abbrev fresh : Credentials
fresh = record {
  env_user = "";
  env_password = "";
  account_exists = false;
  account = none;
  matches = λ h pass. h == pass;
}
