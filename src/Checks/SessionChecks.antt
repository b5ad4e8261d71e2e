-- ===== src/Checks/SessionChecks.antt =====
-- The guards and the redirects on concrete answers and URLs.
use sigil_manager.Prelude.{
  ℕ, String, true, false, Option, none, some, ◌≡◌, refl, arith, if◌then◌else◌, ◌==◌, nat_eq, chars,
  starts_with, contains, Json, Fields, end, field,
}
use sigil_manager.Api.Client.{ApiError, api_error, Request, Fetched, response, Response}
use sigil_manager.Session.{
  LoginSearch, me, returned, redirected, threw, authed_before_load, login_before_load, login_target,
  validate_login_search,
}
use sigil_manager.Session.Guards.{authed_before_load-status}
use sigil_manager.Session.Redirects.{IsSitePath, codes, login_target-IsSitePath}

session : Unit {0}
unfolding login_target validate_login_search starts_with contains
session = tt

abbrev redirect_to : String → Fields
redirect_to path = field "redirect" (Json.string path) end

targets :
    (login_target (validate_login_search (redirect_to "/hosts/h1")) ≡ "/hosts/h1")
    × (login_target (validate_login_search (redirect_to "//evil.example")) ≡ "/alerts")
    × (login_target (validate_login_search (redirect_to "/\\evil.example")) ≡ "/alerts")
unfolding session
targets = (refl, refl, refl)

abbrev server_error : Response
server_error = record { status = 500; status_text = "Internal Server Error"; text = some "" }

abbrev fetch : Request → Fetched
fetch r = response server_error

abbrev parse : String → Option Json
parse text = none

abbrev show : ℕ → String
show n = "500"

abbrev no_search : LoginSearch
no_search = record { redirect = none; oidc_error = none }

authed_before_load-status_example :
    (e : ApiError) × (e.status ≡ server_error.status)
    × (authed_before_load "/alerts" (me fetch parse show) ≡ (
        if server_error.status == 401
        then record { end = redirected "/login" (some "/alerts"); cache_cleared = true }
        else record { end = threw (api_error e); cache_cleared = false }))
    × (login_before_load no_search (me fetch parse show)
        ≡ (if server_error.status == 401 then returned else threw (api_error e)))
authed_before_load-status_example =
    authed_before_load-status fetch parse show "/alerts" no_search server_error "" refl refl refl

login_target-IsSitePath_example :
    IsSitePath (codes (chars (login_target (validate_login_search (redirect_to "//evil.example")))))
login_target-IsSitePath_example = login_target-IsSitePath (redirect_to "//evil.example")

site_path : IsSitePath (codes (chars "/hosts/h1"))
site_path = ground arith
