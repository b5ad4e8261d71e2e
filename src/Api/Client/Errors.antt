-- ===== src/Api/Client/Errors.antt =====
-- What a caller of `api` can tell from the error that it gets.
use sigil_manager.Prelude.{
  ℕ, String, true, false, Option, none, some, ◌≡◌, ◌≢◌, ◌↔◌, ◌⊎◌, inl, inr, arith, Json, member,
  or_else, Option-cases, Bool-cases, ◌==◌, nat_eq, if◌then◌else◌,
}
use sigil_manager.Api.Client.{
  ErrorClass, unauthorized, session_expired, not_found, service_unavailable, unknown, ApiError,
  api_error, RequestInit, Response, Request, Fetched, response, failed, resolved, rejected, is_ok,
  is_text, safe_json, error_of, settle, api, build_request,
}

-- The code on the wire, "unknown" where there is none.
abbrev pub wire_code : Json → Json
wire_code body = or_else (member "code" (member "error" body)) (Json.string "unknown")

-- The statuses and codes that a class of error stands for.
abbrev pub StandsFor : ErrorClass → ℕ → Json → Type 0
StandsFor unauthorized status code = (status ≡ 401) × (is_text "session_expired" code ≡ false)
StandsFor session_expired status code = (status ≡ 401) × (is_text "session_expired" code ≡ true)
StandsFor not_found status code = status ≡ 404
StandsFor service_unavailable status code = status ≡ 503
StandsFor unknown status code = (status ≢ 401) × (status ≢ 404) × (status ≢ 503)

-- The open class has the code of the wire.
abbrev pub KeepsCode : ErrorClass → Json → Json → Type 0
KeepsCode unknown code kept = kept ≡ code
KeepsCode _ code kept = Unit

-- What the error says of the response: its status, its class, and the code where the class is open.
pub record Describes (status : ℕ) (code : Json) (e : ApiError) : Type 0 where
  pub same_status : e.status ≡ status
  pub stands_for : StandsFor e.class status code
  pub same_code : KeepsCode e.class code e.code

module _ (show : ℕ → String) (status : ℕ) (status_text : String) (body : Json) where
  error_of-Describes : Describes status (wire_code body) (error_of show status status_text body)
  unfolding error_of
  error_of-Describes = ground arith

-- When the promise of `api` is fulfilled: the response is 204, or it is 2xx and can be read.
abbrev pub Arrives : Fetched → Type 0
Arrives (failed m) = ⊥
Arrives (response r) =
    (r.status ≡ 204) ⊎ ((is_ok r.status ≡ true) × ((t : String) × (r.text ≡ some t)))

module _ (parse : String → Option Json) (show : ℕ → String) where
  -- The value of the fulfilled promise.
  arrived : Fetched → Json
  unfolding safe_json
  arrived (failed m) = Json.undefined
  arrived (response r) =
      if r.status == 204
      then Json.undefined
      else (elim r.text [ none ↦ Json.undefined | some t ↦ safe_json parse t ])

  settle-Arrives : (f : Fetched) (v : Json) → settle parse show f ≡ resolved v → Arrives f
  unfolding settle arrived
  settle-Arrives (failed m) v h = cc
  settle-Arrives (response r) v h = elim (Option-cases r.text) [
    | inl lost ↦ inl (ground arith)
    | inr (t, read) ↦ elim (Bool-cases (r.status == 204)) [
      | inl empty ↦ inl (ground arith)
      | inr other ↦ inr (ground arith, (t, read))
    ]
  ]

  settle-eq-arrived : (f : Fetched) → Arrives f → settle parse show f ≡ resolved (arrived f)
  unfolding settle arrived
  settle-eq-arrived (failed m) h = absurd h
  settle-eq-arrived (response r) (inl empty) = ground arith
  settle-eq-arrived (response r) (inr (fine, (t, read))) = ground arith

module _ (fetch : Request → Fetched) (parse : String → Option Json) (show : ℕ → String) where
  -- The error of a readable response outside 2xx.
  pub api-error_of :
      (path : String) (init : RequestInit) (r : Response) (text : String)
      → fetch (build_request path init) ≡ response r
      → r.text ≡ some text
      → is_ok r.status ≡ false
      → api fetch parse show path init
        ≡ rejected (api_error (error_of show r.status r.status_text (safe_json parse text)))
  unfolding api
  api-error_of path init r text sent read bad = rw (sent, api) (ground arith)

  -- A response that is neither 2xx nor 204, with a body that can be read, rejects with one error of
  -- the client's classes: the error has the response's status, the class is the one that the status
  -- and the wire code stand for, and an error of the open class keeps the wire code.
  pub api-Describes :
      (path : String) (init : RequestInit) (r : Response) (text : String)
      → fetch (build_request path init) ≡ response r
      → r.text ≡ some text
      → is_ok r.status ≡ false
      → (e : ApiError) × (api fetch parse show path init ≡ rejected (api_error e))
        × Describes r.status (wire_code (safe_json parse text)) e
  api-Describes path init r text sent read bad = (
    error_of show r.status r.status_text (safe_json parse text),
    api-error_of path init r text sent read bad,
    error_of-Describes show r.status r.status_text (safe_json parse text),
  )

  -- The promise of `api` is fulfilled exactly when the response is 204, or is 2xx with a body that
  -- can be read; in every other case it is rejected.
  pub api-eq-resolved_iff :
      (path : String) (init : RequestInit)
      → ((v : Json) × (api fetch parse show path init ≡ resolved v))
        ↔ Arrives (fetch (build_request path init))
  unfolding api
  api-eq-resolved_iff path init =
      let sent = fetch (build_request path init) in
      (
        λ h. settle-Arrives parse show sent h.0 h.1,
        λ a. (arrived parse show sent, settle-eq-arrived parse show sent a),
      )
