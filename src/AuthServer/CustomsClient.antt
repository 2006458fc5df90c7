-- ===== src/AuthServer/CustomsClient.antt =====
-- lib/customs.js of fxa-auth-server, the client of the customs server, with what it uses of
-- lib/backendService.js. The metrics event and the localized time are left out.
use fxa_local_dev.Prelude.{
  ℕ, String, Bool, false, ◌||◌, Option, none, some, ltb, ◌==◌, if◌then◌else◌,
}
use fxa_local_dev.AuthDb.Table.{Table, get, remove}
use fxa_local_dev.Customs.Server.{Response, checked, empty, is_missing, is_true, status}

-- What comes of a request to the customs server.
pub data Reached : Type 0 where
  answered : Response → Reached
  unreachable : Reached

-- What the methods of the service throw.
pub data ServiceError : Type 0 where
  internal_validation_error backend_service_failure : ServiceError
  rethrown : ℕ → ServiceError

-- The result of a check, as the schema of the response has it.
pub record CheckResult : Type 0 where
  pub block : Bool
  pub retry_after : ℕ
  pub unblock : Bool
  pub suspect : Bool

pub data Called : Type 0 where
  returned : CheckResult → Called
  thrown : ServiceError → Called

-- `sendRequest` and the validation of the response: an empty object has no `block`.
unfoldable pub send_request : Reached → Called
send_request (answered (checked block retry_after unblock suspect)) = returned (record {
  block = block;
  retry_after = retry_after;
  unblock = is_true unblock;
  suspect = is_true suspect;
})
send_request (answered empty) = thrown internal_validation_error
send_request (answered (status code)) =
    thrown (if ltb code 500 then rethrown code else backend_service_failure)
send_request unreachable = thrown backend_service_failure

-- How a check ends: it returns, with a mark on a suspicious request, or throws.
pub data Outcome : Type 0 where
  let_through : Bool → Outcome
  too_many_requests : ℕ → Bool → Outcome
  request_blocked : Bool → Outcome
  failed : ServiceError → Outcome

-- `handleCustomsResult`
unfoldable pub handle_customs_result : CheckResult → Outcome
handle_customs_result r =
    if r.block
    then if r.retry_after == 0
      then request_blocked r.unblock
      else too_many_requests r.retry_after r.unblock
    else let_through r.suspect

unfoldable pub handle_called : Called → Outcome
unfolding handle_customs_result
handle_called (returned r) = handle_customs_result r
handle_called (thrown e) = failed e

-- A method of the client: `noblock` if the url is 'none', else the call, whose required texts are
-- validated first.
unfoldable pub call : Bool → Bool → Reached → Outcome
unfolding handle_called send_request
call is_none is_invalid reached =
    if is_none
    then let_through false
    else if is_invalid
    then failed internal_validation_error
    else handle_called (send_request reached)

-- `Customs.prototype.check`; `reached` is what comes of the request that it sends.
unfoldable pub check : Bool → String → String → String → Reached → Outcome
unfolding call
check is_none email ip action reached =
    call is_none (is_missing email || is_missing ip || is_missing action) reached

unfoldable pub check_authenticated : Bool → String → String → String → Reached → Outcome
unfolding call
check_authenticated is_none uid ip action reached =
    call is_none (is_missing uid || is_missing ip || is_missing action) reached

unfoldable pub check_ip_only : Bool → String → String → Reached → Outcome
unfolding call
check_ip_only is_none ip action reached = call is_none (is_missing ip || is_missing action) reached

-- `if (payload[field]) delete payload[field]`, for a field that holds a text
unfoldable pub delete_field : String → Table String → Table String
unfolding get remove
delete_field field payload = elim (get field payload) [
  | none ↦ payload
  | some text ↦ if is_missing text then payload else remove field payload
]

-- `sanitizePayload`
unfoldable pub sanitize_payload : Option (Table String) → Option (Table String)
unfolding delete_field
sanitize_payload none = none
sanitize_payload (some payload) = some (delete_field "oldAuthPW" (delete_field "authPW" payload))
