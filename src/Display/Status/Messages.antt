-- ===== src/Display/Status/Messages.antt =====
-- The message of a page whose data could not be read, by the response of the server.
use sigil_manager.Prelude.{
  ℕ, String, false, Option, some, ◌≡◌, arith, if◌then◌else◌, ◌==◌, nat_eq, string_eq, Json,
}
use sigil_manager.Api.Client.{
  Failure, api_error, RequestInit, Response, Request, Fetched, response, rejected, is_ok, is_text,
  safe_json, error_of, api, build_request,
}
use sigil_manager.Api.Client.Errors.{wire_code, api-error_of}
use sigil_manager.Display.Status.{read_api_error}

-- The message for a status and a wire code.
abbrev pub message_for : ℕ → Json → String
message_for status code =
    if status == 503
    then "Rebuilding index (503). Retry shortly."
    else if status == 401
    then "Session unavailable. Sign in again."
    else if status == 404
    then "Read API unavailable. Check the connection and retry."
    else if is_text "upstream_unauthorized" code
    then "Read API token rejected. Check the server read token configuration."
    else if is_text "read_api_disabled" code
    then "Read API disabled. Configure LODELINE_SERVER_READ_TOKEN on lodeline-server."
    else "Read API unavailable. Check the connection and retry."

read_api_error-error_of :
    (show : ℕ → String) (status : ℕ) (status_text : String) (body : Json)
    → read_api_error (api_error (error_of show status status_text body))
      ≡ message_for status (wire_code body)
unfolding read_api_error error_of
read_api_error-error_of show status status_text body = ground arith

module _ (fetch : Request → Fetched) (parse : String → Option Json) (show : ℕ → String) where
  -- A request that is answered by a response outside 2xx, with a body that can be read, fails with
  -- the message that stands for its status and wire code: 503, 401 and 404 have theirs whatever the
  -- code is, and in any other case the code decides.
  pub read_api_error-api :
      (path : String) (init : RequestInit) (r : Response) (text : String)
      → fetch (build_request path init) ≡ response r
      → r.text ≡ some text
      → is_ok r.status ≡ false
      → (f : Failure) × (api fetch parse show path init ≡ rejected f)
        × (read_api_error f ≡ message_for r.status (wire_code (safe_json parse text)))
  read_api_error-api path init r text sent read bad = (
    api_error (error_of show r.status r.status_text (safe_json parse text)),
    api-error_of fetch parse show path init r text sent read bad,
    read_api_error-error_of show r.status r.status_text (safe_json parse text),
  )
