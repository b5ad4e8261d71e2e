-- ===== src/Session/Return.antt =====
-- The way of a visitor without a session: from a guarded page over the login form back to the page.
use sigil_manager.Prelude.{
  ℕ, String, true, false, Option, none, some, ◌≡◌, refl, ap, ◌∙◌, arith, inr, nat_eq, Json, end,
  field, chars,
}
use sigil_manager.Api.Client.{Request, Fetched, response, Response, no_init, build_request, is_ok}
use sigil_manager.Api.Client.Errors.{api-eq-resolved_iff}
use sigil_manager.Session.{
  me, login, Guarded, returned, redirected, threw, authed_before_load, login_before_load,
  LoginSearch, validate_login_search,
}
use sigil_manager.Session.Guards.{authed_before_load-status}
use sigil_manager.Session.Redirects.{codes, IsSitePath, login_target-redirect}
use sigil_manager.Session.SignIn.{LoginPage, on_answer}
use sigil_manager.Session.SignIn.Answers.{on_answer-login}

-- The search of the login page to which a guard sends.
unfoldable pub search_after : Guarded → LoginSearch
search_after (redirected to (some href)) =
    validate_login_search (field "redirect" (Json.string href) end)
search_after (redirected to none) = validate_login_search end
search_after returned = validate_login_search end
search_after (threw f) = validate_login_search end

-- A readable response of the server to a request.
pub record Answers (fetch : Request → Fetched) (q : Request) (r : Response) : Type 0 where
  pub sent : fetch q ≡ response r
  pub text : String
  pub read : r.text ≡ some text

abbrev pub me_request : Request
me_request = build_request "/auth/me" no_init

abbrev pub login_request : (body : String) → Request
login_request body =
    build_request "/auth/login" (record no_init { method = some "POST"; body = some body })

module _ (fetch : Request → Fetched) (parse : String → Option Json) (show : ℕ → String) where
  turned_away :
      (href : String) (search : LoginSearch) (gone : Response)
      → Answers fetch me_request gone
      → gone.status ≡ 401
      → (authed_before_load href (me fetch parse show)
          ≡ record { end = redirected "/login" (some href); cache_cleared = true })
        × (login_before_load search (me fetch parse show) ≡ returned)
  turned_away href search gone said out =
      let outside : is_ok gone.status ≡ false = rw out refl in
      let (e, same, guarded, form) =
        authed_before_load-status fetch parse show href search gone said.text said.sent said.read
          outside in
      (ground (arith, guarded, out), ground (arith, form, out))

  let_in :
      (href : String) (known : Response)
      → Answers fetch me_request known
      → is_ok known.status ≡ true
      → (authed_before_load href (me fetch parse show)).end ≡ returned
  unfolding me authed_before_load
  let_in href known said fine =
      let (v, there) =
        (api-eq-resolved_iff fetch parse show "/auth/me" no_init).1
          (rw said.sent (inr (fine, (said.text, said.read)))) in
      rw there refl

-- `fetch` answers before the visitor signs in, and `fetch'` afterwards.
module _ (fetch fetch' : Request → Fetched) (parse : String → Option Json) (show : ℕ → String) where
  -- If the server answers the session request of a guarded page at a path of this site with a
  -- readable 401, the cache is cleared and the login page shows its form; if it then accepts the
  -- credentials with a readable 2xx, the visitor is taken to the very URL that was asked for, and if
  -- the session request is answered with a readable 2xx then, the guard lets the visitor in.
  pub on_answer-back :
      (href body : String) (p : LoginPage) (gone accepted known : Response)
      → IsSitePath (codes (chars href))
      → Answers fetch me_request gone
      → gone.status ≡ 401
      → Answers fetch (login_request body) accepted
      → is_ok accepted.status ≡ true
      → Answers fetch' me_request known
      → is_ok known.status ≡ true
      → let guard = authed_before_load href (me fetch parse show) in
        let search = search_after guard.end in
        (guard.cache_cleared ≡ true)
        × (login_before_load search (me fetch parse show) ≡ returned)
        × ((on_answer search (login fetch parse show body) p).1 ≡ some href)
        × ((authed_before_load href (me fetch' parse show)).end ≡ returned)
  unfolding search_after
  on_answer-back href body p gone accepted known site before out given fine after again =
      let there = validate_login_search (field "redirect" (Json.string href) end) in
      let away = turned_away fetch parse show href there gone before out in
      let told =
        on_answer-login fetch parse show there body p accepted given.text given.sent given.read in
      rw away.0 (
        refl,
        away.1,
        told.0 ∙ rw fine (ap some (login_target-redirect href end site)),
        let_in fetch' parse show href known after again,
      )
