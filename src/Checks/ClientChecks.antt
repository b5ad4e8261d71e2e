-- ===== src/Checks/ClientChecks.antt =====
-- The client of the HTTP interface on concrete responses.
use sigil_manager.Prelude.{ℕ, String, Option, some, [], ◌∷◌, ◌≡◌, refl, Json, end, field}
use sigil_manager.Api.Client.{
  Response, Request, Fetched, response, failed, no_init, api, api_error, other_error, rejected,
  ApiError, safe_json, build_request, unauthorized_error, session_expired_error, unknown_api_error,
}
use sigil_manager.Api.Client.Errors.{Describes, wire_code, api-Describes}

abbrev expired_body : Json
expired_body =
    Json.object (field "error" (Json.object (field "code" (Json.string "session_expired") end)) end)

abbrev parse : String → Option Json
parse text = some expired_body

abbrev show : ℕ → String
show n = "401"

abbrev expired : Response
expired = record { status = 401; status_text = "Unauthorized"; text = some "{..}" }

abbrev fetch : Request → Fetched
fetch r = response expired

client : Unit {0}
unfolding api unauthorized_error session_expired_error unknown_api_error
client = tt

session_expires :
    api fetch parse show "/auth/me" no_init
    ≡ rejected (api_error (session_expired_error (Json.string "401 Unauthorized")))
unfolding client
session_expires = refl

offline :
    api (λ r. failed "Failed to fetch") parse show "/auth/me" no_init
    ≡ rejected (other_error "Failed to fetch")
unfolding client
offline = refl

posted :
    (build_request "/auth/login"
      (record no_init { method = some "POST"; body = some "{}" })).headers
    ≡ ("Accept", "application/json") ∷ ("Content-Type", "application/json") ∷ []
unfolding build_request
posted = refl

api-Describes_example :
    (e : ApiError) × (api fetch parse show "/auth/me" no_init ≡ rejected (api_error e))
    × Describes 401 (wire_code (safe_json parse "{..}")) e
api-Describes_example =
    api-Describes fetch parse show "/auth/me" no_init expired "{..}" refl refl refl
