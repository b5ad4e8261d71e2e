-- ===== src/Session/SignIn/Answers.antt =====
-- What the visitor meets after submitting the login form, by the response of the server.
use sigil_manager.Prelude.{
  ℕ, String, false, Option, none, some, [], ◌∷◌, ◌≡◌, refl, arith, inl, inr, Bool-cases,
  if◌then◌else◌, ◌==◌, nat_eq, string_eq, ◌&&◌, not, Json, member, or_else, template, truthy,
  to_string,
}
use sigil_manager.Api.Client.{
  api_error, Request, Fetched, response, Response, no_init, build_request, is_ok, is_text,
  safe_json, error_of, message_of,
}
use sigil_manager.Api.Client.Errors.{wire_code, api-error_of, api-eq-resolved_iff}
use sigil_manager.Session.{LoginSearch, login_target, login}
use sigil_manager.Session.SignIn.{LoginPage, failed, on_answer, login_error, submit_disabled}

-- The message on the wire, the status line where there is none.
abbrev pub wire_message : (show : ℕ → String) → Response → Json → String
wire_message show r body = to_string (
    or_else (member "message" (member "error" body))
      (Json.string (template (show r.status ∷ " " ∷ r.status_text ∷ []))))

-- What the form says of a status outside 2xx.
abbrev pub said_of : (show : ℕ → String) → Response → Json → Option String
said_of show r body =
    if (r.status == 401) && not (is_text "session_expired" (wire_code body))
    then some "Username or password is wrong"
    else if truthy (wire_message show r body)
    then some (wire_message show r body)
    else none

error_of-said :
    (show : ℕ → String) (r : Response) (body : Json) (p : LoginPage)
    → login_error
        (record p { attempt = failed (api_error (error_of show r.status r.status_text body)) })
      ≡ said_of show r body
unfolding login_error error_of message_of
error_of-said show r body p = ground arith

module _ (fetch : Request → Fetched) (parse : String → Option Json) (show : ℕ → String) where
  -- If the login request is answered by a response whose body can be read, a 2xx takes the visitor to
  -- the target of the search. Any other status keeps the visitor at the form, which can be submitted
  -- again and keeps its fields, and says that the name or the password is wrong for a 401 of any code
  -- but "session_expired", and else the message of the server, if it is not empty.
  pub on_answer-login :
      (search : LoginSearch) (body : String) (p : LoginPage) (r : Response) (text : String)
      → fetch
          (build_request "/auth/login" (record no_init { method = some "POST"; body = some body }))
        ≡ response r
      → r.text ≡ some text
      → let after = on_answer search (login fetch parse show body) p in
        (after.1 ≡ (if is_ok r.status then some (login_target search) else none))
        × (login_error after.0
            ≡ (if is_ok r.status then none else said_of show r (safe_json parse text)))
        × (submit_disabled after.0 ≡ false)
        × (after.0.username ≡ p.username)
        × (after.0.password ≡ p.password)
  unfolding on_answer login login_error submit_disabled
  on_answer-login search body p r text sent read = elim (Bool-cases (is_ok r.status)) [
    | inl fine ↦
        let (v, there) =
          (api-eq-resolved_iff fetch parse show "/auth/login"
              (record no_init { method = some "POST"; body = some body })).1
            (rw sent (inr (fine, (text, read)))) in
        rw (there, fine) (refl, refl, refl, refl, refl)
    | inr bad ↦
        rw
          (
            api-error_of fetch parse show "/auth/login"
                (record no_init { method = some "POST"; body = some body }) r text sent read bad,
            bad,
          )
          (refl, error_of-said show r (safe_json parse text) p, refl, refl, refl)
  ]
