-- ===== src/Session.antt =====
-- Sessions: the guards of web/src/routes/_authed/route.tsx, web/src/routes/login.tsx and
-- web/src/routes/index.tsx, over the `me` request of web/src/api/auth.ts.
pub mod Guards
pub mod Redirects
pub mod SignIn
pub mod Return
use sigil_manager.Prelude.{
  ℕ, String, Bool, true, false, Option, none, some, List, [], ◌∷◌, ◌||◌, ◌&&◌, if◌then◌else◌, not,
  ◌==◌, string_eq, Json, Number, Fields, lookup, starts_with, contains,
}
use sigil_manager.Api.Client.{
  Failure, Outcome, resolved, rejected, unauthorized, session_expired, is_instance, Request,
  Fetched, RequestInit, no_init, api,
}

module _ (fetch : Request → Fetched) (parse : String → Option Json) (show : ℕ → String) where
  unfoldable pub me : Outcome
  me = api fetch parse show "/auth/me" no_init

  -- `login`; `body` is the JSON text of the credentials.
  unfoldable pub login : (body : String) → Outcome
  login body =
      api fetch parse show "/auth/login" (record no_init { method = some "POST"; body = some body })

  unfoldable pub logout : Outcome
  logout = api fetch parse show "/auth/logout" (record no_init { method = some "POST" })

  unfoldable pub auth_methods : Outcome
  auth_methods = api fetch parse show "/auth/methods" no_init

-- How `beforeLoad` ends: it returns, or it throws a redirect or another failure.
pub data Guarded : Type 0 where
  returned : Guarded
  redirected : (to : String) → (redirect : Option String) → Guarded
  threw : Failure → Guarded

-- `err instanceof UnauthorizedError || err instanceof SessionExpiredError`
abbrev pub is_signed_out : Failure → Bool
is_signed_out f = is_instance unauthorized f || is_instance session_expired f

-- A guard's end, and whether it cleared the query cache.
pub record Guarding : Type 0 where
  pub end : Guarded
  pub cache_cleared : Bool

-- The guard of the `_authed` routes, at the URL `href`.
unfoldable pub authed_before_load : (href : String) → Outcome → Guarding
authed_before_load href (resolved v) = record { end = returned; cache_cleared = false }
authed_before_load href (rejected f) =
    if is_signed_out f
    then record { end = redirected "/login" (some href); cache_cleared = true }
    else record { end = threw f; cache_cleared = false }

pub record LoginSearch : Type 0 where
  pub redirect : Option String
  pub oidc_error : Option Bool

-- The redirect that `validateSearch` of the login page lets through.
unfoldable pub valid_redirect : Json → Option String
valid_redirect (Json.string r) =
    if starts_with r "/" && not (starts_with r "//") && not (contains r "\\") then some r else none
valid_redirect _ = none

-- `raw.oidc_error === '1' || raw.oidc_error === 1 || raw.oidc_error === true`
unfoldable pub valid_oidc_error : Json → Option Bool
valid_oidc_error (Json.string s) = if s == "1" then some true else none
valid_oidc_error (Json.number n) = if n.decimal == "1" then some true else none
valid_oidc_error (Json.boolean true) = some true
valid_oidc_error _ = none

unfoldable pub validate_login_search : Fields → LoginSearch
unfolding valid_redirect valid_oidc_error
validate_login_search raw = record {
  redirect = valid_redirect (lookup "redirect" raw);
  oidc_error = valid_oidc_error (lookup "oidc_error" raw);
}

-- `search.redirect ?? '/alerts'`: where a signed-in visitor and a successful login go.
unfoldable pub login_target : LoginSearch → String
login_target s = elim s.redirect [ none ↦ "/alerts" | some r ↦ r ]

-- The guard of the login page. The redirect that it throws passes through its own `catch`.
unfoldable pub login_before_load : LoginSearch → Outcome → Guarded
unfolding login_target
login_before_load s (resolved v) = redirected (login_target s) none
login_before_load s (rejected f) = if is_signed_out f then returned else threw f

-- The guard of `/`.
unfoldable pub index_before_load : Outcome → Guarded
index_before_load (resolved v) = redirected "/alerts" none
index_before_load (rejected f) = if is_signed_out f then redirected "/login" none else threw f
