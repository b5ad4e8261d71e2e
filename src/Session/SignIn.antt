-- ===== src/Session/SignIn.antt =====
-- The login page of web/src/routes/login.tsx: its form, the request, and what its answer shows.
pub mod Answers
use sigil_manager.Prelude.{
  String, Bool, true, false, Option, none, some, if◌then◌else◌, ◌==◌, string_eq, truthy,
}
use sigil_manager.Api.Client.{
  Failure, Outcome, resolved, rejected, unauthorized, is_instance, message_of,
}
use sigil_manager.Session.{LoginSearch, login_target}

-- What the mutation library shows of the login request.
pub data Attempt : Type 0 where
  idle pending signed_in : Attempt
  failed : Failure → Attempt

pub record LoginPage : Type 0 where
  pub username : String
  pub password : String
  pub attempt : Attempt

abbrev pub new_page : LoginPage
new_page = record { username = ""; password = ""; attempt = idle }

-- The credentials that a submitted form sends; the text of the request is their JSON.
pub record Credentials : Type 0 where
  pub username : String
  pub password : String

unfoldable pub on_submit : LoginPage → LoginPage × Credentials
on_submit p =
    (record p { attempt = pending }, record { username = p.username; password = p.password })

-- Where the answer leads: on to a page, or back to the form.
unfoldable pub on_answer : LoginSearch → Outcome → LoginPage → LoginPage × Option String
on_answer search (resolved v) p = (record p { attempt = signed_in }, some (login_target search))
on_answer search (rejected f) p = (record p { attempt = failed f }, none)

-- `errorMessage`, where it is shown: an empty one is not.
unfoldable pub login_error : LoginPage → Option String
login_error p = elim p.attempt [
  | failed f ↦
      if is_instance unauthorized f
      then some "Username or password is wrong"
      else if truthy (message_of f)
      then some (message_of f)
      else none
  | _ ↦ none
]

unfoldable pub submit_disabled : LoginPage → Bool
submit_disabled p = elim p.attempt [ pending ↦ true | _ ↦ false ]

unfoldable pub submit_text : LoginPage → String
submit_text p = elim p.attempt [ pending ↦ "Signing in…" | _ ↦ "Sign in" ]

-- The query of the sign-in methods: whether the organization's is among them, and its error.
pub record Methods : Type 0 where
  pub oidc : Option Bool
  pub has_error : Bool

abbrev is_true : Option Bool → Bool
is_true none = false
is_true (some b) = b

-- What stands around the form.
pub record PageNotes : Type 0 where
  pub oidc_failed : Option String
  pub oidc_link : Option String
  pub methods_failed : Option String
  pub footer : String

unfoldable pub page_notes : LoginSearch → Methods → PageNotes
page_notes search methods = record {
  oidc_failed =
      if is_true search.oidc_error
      then some
          "Organization sign-in failed or access was not granted. Try again or contact your administrator."
      else none;
  oidc_link = if is_true methods.oidc then some "/api/v1/auth/oidc/start" else none;
  methods_failed =
      if methods.has_error then some "Could not load organization sign-in options. " else none;
  footer =
      if is_true methods.oidc
      then "Use your local administrator credentials for recovery access."
      else "Use your local administrator credentials to sign in.";
}
