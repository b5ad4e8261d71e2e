-- ===== src/Api/Client.antt =====
-- web/src/api/client.ts: one request, and the error classes that a failed response becomes.
-- `fetch` and `JSON.parse` belong to the platform, and are parameters.
pub mod Errors
use sigil_manager.Prelude.{
  ℕ, String, Bool, true, false, Option, none, some, List, [], ◌∷◌, ◌&&◌, leb, if◌then◌else◌, ◌==◌,
  nat_eq, string_eq, Json, member, or_else, to_string, template, truthy, truthy?,
}

pub data ErrorClass : Type 0 where
  unauthorized session_expired not_found service_unavailable unknown : ErrorClass

abbrev pub api_base : String
api_base = "/api/v1"

-- The code and the message are wire values: the contract makes them texts.
pub record ApiError : Type 0 where
  pub class : ErrorClass
  pub name : String
  pub status : ℕ
  pub code : Json
  pub message : Json

unfoldable pub unauthorized_error : Json → ApiError
unauthorized_error message = record {
  class = unauthorized;
  name = "UnauthorizedError";
  status = 401;
  code = Json.string "unauthorized";
  message = message;
}

unfoldable pub session_expired_error : Json → ApiError
session_expired_error message = record {
  class = session_expired;
  name = "SessionExpiredError";
  status = 401;
  code = Json.string "session_expired";
  message = message;
}

unfoldable pub not_found_error : Json → ApiError
not_found_error message = record {
  class = not_found;
  name = "NotFoundError";
  status = 404;
  code = Json.string "not_found";
  message = message;
}

unfoldable pub service_unavailable_error : Json → ApiError
service_unavailable_error message = record {
  class = service_unavailable;
  name = "ServiceUnavailableError";
  status = 503;
  code = Json.string "service_unavailable";
  message = message;
}

-- `UnknownApiError` adds nothing to its base class, the name included.
unfoldable pub unknown_api_error : ℕ → Json → Json → ApiError
unknown_api_error status code message = record {
  class = unknown;
  name = "ApiError";
  status = status;
  code = code;
  message = message;
}

-- What a promise of the program can be rejected with: an error of the classes above, or any other,
-- of which the message is kept.
pub data Failure : Type 0 where
  api_error : ApiError → Failure
  other_error : (message : String) → Failure

-- `e.message`: the constructor of an error keeps its argument as a text.
unfoldable pub message_of : Failure → String
message_of (api_error e) = to_string e.message
message_of (other_error message) = message

abbrev class_beq : ErrorClass → ErrorClass → Bool
class_beq unauthorized unauthorized = true
class_beq session_expired session_expired = true
class_beq not_found not_found = true
class_beq service_unavailable service_unavailable = true
class_beq unknown unknown = true
class_beq _ _ = false

-- `error instanceof C`
abbrev pub is_instance : ErrorClass → Failure → Bool
is_instance c (api_error e) = class_beq e.class c
is_instance c (other_error m) = false

pub data Outcome : Type 0 where
  resolved : Json → Outcome
  rejected : Failure → Outcome

pub record Response : Type 0 where
  pub status : ℕ
  pub status_text : String
  -- What `res.text()` gives: the body, or a failure to read it.
  pub text : Option String

-- `res.ok`
abbrev pub is_ok : ℕ → Bool
is_ok status = leb 200 status && leb status 299

pub record RequestInit : Type 0 where
  pub method : Option String
  pub body : Option String
  pub headers : List (String × String)

abbrev pub no_init : RequestInit
no_init = record { method = none; body = none; headers = [] }

pub record Request : Type 0 where
  pub url : String
  pub method : Option String
  pub body : Option String
  pub credentials : String
  pub headers : List (String × String)

-- A later entry of an object literal replaces an earlier one of the same key.
unfoldable pub put : String → String → List (String × String) → List (String × String)
put k v [] = (k, v) ∷ []
put k v ((j, w) ∷ rest) = let more = put k v rest in if j == k then (k, v) ∷ rest else (j, w) ∷ more

-- `...more`
unfoldable pub spread : List (String × String) → List (String × String) → List (String × String)
spread base [] = base
spread base ((k, v) ∷ more) = spread (put k v base) more

unfoldable pub build_request : String → RequestInit → Request
unfolding spread put
build_request path init = record {
  url = template (api_base ∷ path ∷ []);
  method = init.method;
  body = init.body;
  credentials = "include";
  headers =
      spread
        (spread (("Accept", "application/json") ∷ [])
          (if truthy? init.body then ("Content-Type", "application/json") ∷ [] else []))
        init.headers;
}

pub data Fetched : Type 0 where
  response : Response → Fetched
  failed : (message : String) → Fetched

module _ (parse : String → Option Json) where
  -- An empty body is `undefined`, and one that is no JSON is its own text.
  unfoldable pub safe_json : String → Json
  safe_json text =
      if truthy text
      then (elim (parse text) [ none ↦ Json.string text | some v ↦ v ])
      else Json.undefined

-- `code === 'session_expired'`
abbrev pub is_text : String → Json → Bool
is_text t (Json.string s) = s == t
is_text t _ = false

module _ (show : ℕ → String) where
  -- The error that `api` throws for a response that is not `ok`, from its parsed body.
  unfoldable pub error_of : ℕ → String → Json → ApiError
  unfolding unauthorized_error session_expired_error not_found_error service_unavailable_error
      unknown_api_error
  error_of status status_text body =
      let code = or_else (member "code" (member "error" body)) (Json.string "unknown") in
      let message =
        or_else (member "message" (member "error" body))
          (Json.string (template (show status ∷ " " ∷ status_text ∷ []))) in
      if status == 401
      then (if is_text "session_expired" code
          then session_expired_error message
          else unauthorized_error message)
      else if status == 404
      then not_found_error message
      else if status == 503
      then service_unavailable_error message
      else unknown_api_error status code message

module _ (parse : String → Option Json) (show : ℕ → String) where
  read_body : Response → Outcome
  unfolding safe_json error_of
  read_body r = elim r.text [
    | none ↦ rejected (other_error "body could not be read")
    | some text ↦
        let body = safe_json parse text in
        if is_ok r.status
        then resolved body
        else rejected (api_error (error_of show r.status r.status_text body))
  ]

  settle : Fetched → Outcome
  unfolding read_body
  settle (failed m) = rejected (other_error m)
  settle (response r) = if r.status == 204 then resolved Json.undefined else read_body r

module _ (fetch : Request → Fetched) (parse : String → Option Json) (show : ℕ → String) where
  unfoldable pub api : String → RequestInit → Outcome
  unfolding settle build_request
  api path init = settle parse show (fetch (build_request path init))
