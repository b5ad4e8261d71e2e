-- ===== src/Fleet/HostPage/Answers.antt =====
-- What the page of a host shows, by the response of the server.
use sigil_manager.Prelude.{
  ℕ, String, Bool, true, false, Option, none, some, [], ◌∷◌, ◌≡◌, ◌∙◌, ap, arith, if◌then◌else◌,
  ◌==◌, nat_eq, string_eq, Json, template,
}
use sigil_manager.Api.Client.{
  api_error, Outcome, resolved, rejected, Request, Fetched, response, Response, no_init,
  build_request, is_ok, safe_json, error_of, message_of, api,
}
use sigil_manager.Api.Client.Errors.{api-error_of}
use sigil_manager.Api.Query.{Pairs, fleet_host_path}
use sigil_manager.Api.Fleet.{HostDetail}
use sigil_manager.Session.SignIn.Answers.{wire_message}
use sigil_manager.Fleet.Polling.{host_retry}
use sigil_manager.Fleet.HostPage.{
  ComplianceFeed, PageView, not_found_panel, failed_to_load, page_view, settled_query,
  use_fleet_host,
}

-- The panel for a status outside 2xx, of a host that the URL names.
abbrev pub panel_of : (show : ℕ → String) → String → Response → Json → PageView
panel_of show host_id r body =
    if r.status == 404
    then not_found_panel host_id
    else failed_to_load (template ("Failed to load host: " ∷ wire_message show r body ∷ []))

error_of-panel :
    (distance : String → Option String) (show : ℕ → String) (host_id : String)
    (feed : ComplianceFeed) (r : Response) (body : Json)
    → page_view distance host_id feed (
        use_fleet_host (record {
          loaded = none;
          is_pending = false;
          error = some (api_error (error_of show r.status r.status_text body));
        }))
      ≡ panel_of show host_id r body
unfolding page_view use_fleet_host error_of message_of
error_of-panel distance show host_id feed r body = ground arith

error_of-retry :
    (show : ℕ → String) (status : ℕ) (status_text : String) (body : Json)
    → host_retry 0 (api_error (error_of show status status_text body))
      ≡ (if status == 404 then false else true)
unfolding host_retry error_of
error_of-retry show status status_text body = ground arith

-- Whether a failed first attempt is made again.
abbrev pub is_retried : Outcome → Bool
is_retried (resolved v) = false
is_retried (rejected f) = host_retry 0 f

module _ (fetch : Request → Fetched) (parse : String → Option Json) (show : ℕ → String)
    (query_text : Pairs → String) (encode : String → String) (decode : Json → HostDetail)
    (distance : String → Option String) where
  abbrev pub answer_of : String → Outcome
  answer_of host_id = api fetch parse show (fleet_host_path query_text encode host_id) no_init

  -- If the request for a host of which nothing is loaded is answered by a response outside 2xx whose
  -- body can be read, a 404 is final at the first attempt, and the page says that the host of the URL
  -- is not found; any other status is tried again, and once it is final the page says that the host
  -- failed to load, with the message of the server.
  pub page_view-answer :
      (host_id : String) (feed : ComplianceFeed) (r : Response) (text : String)
      → fetch (build_request (fleet_host_path query_text encode host_id) no_init) ≡ response r
      → r.text ≡ some text
      → is_ok r.status ≡ false
      → (is_retried (answer_of host_id) ≡ (if r.status == 404 then false else true))
        × (page_view distance host_id feed
              (use_fleet_host (settled_query decode (answer_of host_id)))
            ≡ panel_of show host_id r (safe_json parse text))
  unfolding settled_query
  page_view-answer host_id feed r text sent read bad =
      let body = safe_json parse text in
      let ended =
        api-error_of fetch parse show (fleet_host_path query_text encode host_id) no_init r text
          sent read bad in
      (
        ap is_retried ended ∙ error_of-retry show r.status r.status_text body,
        ap (λ o. page_view distance host_id feed (use_fleet_host (settled_query decode o))) ended
            ∙ error_of-panel distance show host_id feed r body,
      )
