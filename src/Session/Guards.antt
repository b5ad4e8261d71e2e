-- ===== src/Session/Guards.antt =====
-- What a visitor of a guarded page meets, by the server's answer to `me`.
use sigil_manager.Prelude.{
  ℕ, String, Bool, true, false, Option, some, ◌≡◌, refl, ◌∙◌, arith, if◌then◌else◌, ◌==◌, nat_eq,
  Json,
}
use sigil_manager.Api.Client.{
  ErrorClass, ApiError, api_error, Request, Fetched, response, Response, no_init, build_request,
  is_ok, unauthorized, session_expired, not_found, service_unavailable, unknown, safe_json,
}
use sigil_manager.Api.Client.Errors.{Describes, StandsFor, wire_code, api-Describes}
use sigil_manager.Session.{
  me, returned, redirected, threw, authed_before_load, login_before_load, LoginSearch,
  is_signed_out,
}

-- The test of the guards on a class of error.
abbrev is_signed_out_class : ErrorClass → Bool
is_signed_out_class unauthorized = true
is_signed_out_class session_expired = true
is_signed_out_class _ = false

class-status :
    (c : ErrorClass) (status : ℕ) (code : Json)
    → StandsFor c status code
    → is_signed_out_class c ≡ (status == 401)
class-status unauthorized status code s = ground arith
class-status session_expired status code s = ground arith
class-status not_found status code s = ground arith
class-status service_unavailable status code s = ground arith
class-status unknown status code s = ground arith

is_signed_out-class : (e : ApiError) → is_signed_out (api_error e) ≡ is_signed_out_class e.class
is_signed_out-class e = ground arith

is_signed_out-401 :
    (status : ℕ) (code : Json) (e : ApiError)
    → Describes status code e
    → is_signed_out (api_error e) ≡ (status == 401)
is_signed_out-401 status code e d =
    is_signed_out-class e ∙ class-status e.class status code d.stands_for

module _ (fetch : Request → Fetched) (parse : String → Option Json) (show : ℕ → String) where
  -- When the server answers `me` with a response outside 2xx whose body can be read, a guarded page
  -- sends the visitor to the login page with the page's URL to return to, and clears the query
  -- cache, if the status is 401; with any other status it throws the error of the response and
  -- keeps the cache. The login page shows its form in the first case and throws in the second.
  pub authed_before_load-status :
      (href : String) (search : LoginSearch) (r : Response) (text : String)
      → fetch (build_request "/auth/me" no_init) ≡ response r
      → r.text ≡ some text
      → is_ok r.status ≡ false
      → (e : ApiError) × (e.status ≡ r.status)
        × (authed_before_load href (me fetch parse show) ≡ (
            if r.status == 401
            then record { end = redirected "/login" (some href); cache_cleared = true }
            else record { end = threw (api_error e); cache_cleared = false }))
        × (login_before_load search (me fetch parse show)
            ≡ (if r.status == 401 then returned else threw (api_error e)))
  unfolding me authed_before_load login_before_load
  authed_before_load-status href search r text sent read bad =
      let (e, ended, said) =
        api-Describes fetch parse show "/auth/me" no_init r text sent read bad in
      let kind = is_signed_out-401 r.status (wire_code (safe_json parse text)) e said in
      (e, said.same_status, rw (ended, kind) refl, rw (ended, kind) refl)
