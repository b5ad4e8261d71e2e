-- ===== src/Fleet/Notices/Banners.antt =====
-- The banner, by the response of the server to the health request.
use sigil_manager.Prelude.{
  ℕ, String, false, Option, none, some, ◌≡◌, ap, ◌∙◌, arith, if◌then◌else◌, ◌==◌, nat_eq, Json,
  ◌&&◌, not,
}
use sigil_manager.Api.Client.{
  api_error, RequestInit, Response, Request, Fetched, response, rejected, is_ok, is_text, safe_json,
  error_of, api, build_request,
}
use sigil_manager.Api.Client.Errors.{wire_code, api-error_of}
use sigil_manager.Fleet.Notices.{connection_banner}

-- The banner for a status outside 2xx and a wire code.
abbrev pub banner_for : ℕ → Json → Option String
banner_for status code =
    if (status == 401) && not (is_text "session_expired" code)
    then none
    else if status == 503
    then some "lodeline-server is rebuilding its index. Retrying every 10s…"
    else some "Lost connection to lodeline-server. Retrying every 10s…"

banner-error_of :
    (show : ℕ → String) (status : ℕ) (status_text : String) (body : Json)
    → connection_banner (rejected (api_error (error_of show status status_text body)))
      ≡ banner_for status (wire_code body)
unfolding connection_banner error_of
banner-error_of show status status_text body = ground arith

module _ (fetch : Request → Fetched) (parse : String → Option Json) (show : ℕ → String) where
  -- A response outside 2xx with a body that can be read shows no banner if it is a 401 of any code
  -- but "session_expired", the notice of the rebuild if it is a 503, and the loss of the connection
  -- in every other case, the 401 of an expired session among them.
  pub connection_banner-api :
      (path : String) (init : RequestInit) (r : Response) (text : String)
      → fetch (build_request path init) ≡ response r
      → r.text ≡ some text
      → is_ok r.status ≡ false
      → connection_banner (api fetch parse show path init)
        ≡ banner_for r.status (wire_code (safe_json parse text))
  connection_banner-api path init r text sent read bad =
      ap connection_banner (api-error_of fetch parse show path init r text sent read bad)
      ∙ banner-error_of show r.status r.status_text (safe_json parse text)
