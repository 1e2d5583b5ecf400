-- ===== src/Stellar/Connection/Errors.antt =====
-- packages/node/src/stellar/api.connection.ts, `handleError`: which error is made of which message.
use subql_stellar.Prelude.{
  Bool, true, not, ◌&&◌, ◌||◌, if◌then◌else◌, JsError, includes, starts_with, ◌≡◌, ◌↔◌, arith,
}
use subql_stellar.Stellar.Connection.{ApiConnectionError, handle_connection_error}
use subql_stellar.Stellar.Connection.ApiConnectionError.{
  timeout_error, disconnection_error, rate_limit_error, large_response_error, default_error,
}

abbrev pub speaks_of_timeout : JsError → Bool
speaks_of_timeout e = includes e.message "Timeout"

abbrev pub speaks_of_disconnection : JsError → Bool
speaks_of_disconnection e = starts_with e.message "disconnected from "

abbrev pub speaks_of_rate : JsError → Bool
speaks_of_rate e =
    includes e.message "Rate Limit Exceeded" || includes e.message "Too Many Requests"

abbrev pub speaks_of_size : JsError → Bool
speaks_of_size e = includes e.message "limit must not exceed"

-- The error `e` is made the error `made` exactly if the test holds.
abbrev pub IsMade : JsError → ApiConnectionError → Bool → Type 0
IsMade e made test = (handle_connection_error e ≡ made) ↔ (test ≡ true)

abbrev Made : JsError → Bool → Bool → Bool → Bool → ApiConnectionError → Bool → Type 0
Made e t d r l made test =
    ((if t
        then timeout_error e
        else if d
        then disconnection_error e
        else if r
        then rate_limit_error e
        else if l
        then large_response_error e
        else default_error e.name e.message)
      ≡ made)
    ↔ (test ≡ true)

by_tests :
    (e : JsError) (t d r l : Bool)
    → Made e t d r l (timeout_error e) t
      × Made e t d r l (disconnection_error e) (not t && d)
      × Made e t d r l (rate_limit_error e) (r && not (t || d))
      × Made e t d r l (large_response_error e) (l && not (t || d || r))
      × Made e t d r l (default_error e.name e.message) (not (t || d || r || l))
by_tests e t d r l = ground arith

-- An error is a timeout exactly if its message speaks of one; a disconnection exactly if it begins so and
-- speaks of no timeout; a rate limit exactly if it speaks of a rate or of too many requests, and is
-- neither of those; too large a response exactly if it speaks of a limit that is exceeded, and is none of
-- the three; and any other error keeps its name and message.
pub handle_connection_error_iff :
    (e : JsError)
    → IsMade e (timeout_error e) (speaks_of_timeout e)
      × IsMade e (disconnection_error e) (not (speaks_of_timeout e) && speaks_of_disconnection e)
      × IsMade e
          (rate_limit_error e)
          (speaks_of_rate e && not (speaks_of_timeout e || speaks_of_disconnection e))
      × IsMade e (large_response_error e) (
          speaks_of_size e
          && not (speaks_of_timeout e || speaks_of_disconnection e || speaks_of_rate e))
      × IsMade e (default_error e.name e.message) (
          not (
            speaks_of_timeout e
            || speaks_of_disconnection e
            || speaks_of_rate e
            || speaks_of_size e))
unfolding handle_connection_error
handle_connection_error_iff e =
    by_tests e (speaks_of_timeout e) (speaks_of_disconnection e) (speaks_of_rate e)
      (speaks_of_size e)
