-- ===== src/Lib.antt =====
-- The web console of lodeline-manager (web/src, TypeScript): the pages on which an operator of a
-- fleet reads alerts, triages them, and looks at hosts.
--
-- The console is a client of the manager's HTTP interface. `Api` is that interface: `Api.Client`
-- is web/src/api/client.ts, one request from its parts to the promise that it settles, with the
-- classes of errors; `Api.Fleet` and `Api.Triage` are the records of web/src/api/fleet.ts and
-- triage.ts with the functions that decode evidence; `Api.Query` is the query part of each list
-- request.
--
-- `Paging` is web/src/hooks/usePagedFleet.ts, the list of pages that every fleet list stands on:
-- which rows it shows (`rows`), which cursor comes next (`get_next_page_param`), and when it says
-- that a cursor was repeated. `Paging.load_until` is the effect of web/src/routes/_authed/hosts
-- that loads pages until a host is found, a request fails or nothing is left.
--
-- `Alerts` is the alerts queue. `Alerts.Sorting` has both copies of its order, that of
-- web/src/components/AlertsQueue/QueueTable.tsx (`sort_events`) and that of
-- web/src/routes/_authed/alerts.tsx (`sort_rows`); `Alerts.Filter` is `applyClientFilter` and
-- `Alerts.Polling` the hover pause of web/src/hooks/useAlerts.ts; `Alerts.Results` is the value
-- that this hook returns and what the page shows of it; `Alerts.Search` is the search part of the
-- page's URL, and `Alerts.Chips` the filter row (FilterRow.tsx) that changes it; `Alerts.Ranges`
-- has its time ranges over a clock; `Alerts.Queue` is what a row shows and which rows flash, from
-- QueueRow.tsx and QueueTable.tsx. `Alerts.Keyboard` is the cursor, and `Alerts.Page` the bindings
-- of the page: `on_key` is one press with what its handler does, and `page_buttons` the buttons of
-- the document in their order, among which `triggerStatusButton` looks for a label. `Shortcuts` is
-- the binder web/src/hooks/useShortcuts.ts that calls these handlers; `Alerts.Page.Typing` runs
-- the two together, and `Alerts.Page.Highlight` puts the keys beside the table and the slide-over.
--
-- `Triage` is web/src/hooks/useTriage.ts with the writes of the slide-over
-- (web/src/components/AlertsQueue/SlideOver.tsx), and `Triage.Stale` the queries that a write
-- makes stale; `Triage.Panel` is what the slide-over shows and offers, `Triage.Panel.Sending` its
-- note field while a note or the row that it needs is on its way, `Triage.Panel.Assignee` its
-- assignee field, `Triage.Attempts` the notes that are sent one after another, `Triage.Reopening`
-- a note without the detail, and `Triage.Facts` the facts that it lists.
--
-- `Fleet` has the pages under web/src/routes/_authed/fleet and the page of a host: `Fleet.Events`
-- (useFleetEvents.ts and events.tsx, with the form in `Fleet.Events.Form`, its URL in
-- `Fleet.Events.Reload` and the links in `Fleet.Events.Quick`), `Fleet.Hosts` (risk.tsx and
-- devices.tsx, with the table in `Fleet.Hosts.Devices`), `Fleet.HostPage` (hosts/$hostId.tsx,
-- useFleetHost.ts and HostHeader.tsx, with the lookup of the policy status over
-- useFleetCompliance.ts in `Fleet.HostPage.Lookup`), `Fleet.Cards` (AiGuardByTool.tsx,
-- HostMetaCard.tsx, PolicyHealthCard.tsx), `Fleet.Tables` (the cells of RiskTable.tsx,
-- ComplianceTable.tsx and EventsTable.tsx), `Fleet.Details` (EventDetails.tsx), `Fleet.Notices`
-- (Pagination.tsx, ConnectionBanner.tsx, the policy line of a host) and `Fleet.Polling` (the
-- options of useFleetQuery.ts and its relatives).
--
-- `Session` has the guards of web/src/routes/_authed/route.tsx, login.tsx and index.tsx over
-- web/src/api/auth.ts, and `Session.SignIn` the login form; `Session.Return` is the way from a
-- guard over the form back to the page. `Navigation` is the connection pill of
-- web/src/components/Layout/TopNav.tsx, and `Navigation.SettingsPage` settings.tsx. `Display` has
-- the helpers of web/src/lib, and the lists of reasons and observed controls of ReasonList.tsx and
-- ObservedControls.tsx. `Prelude` has what all of these share, and `Checks` runs the model at
-- concrete inputs. Names are those of the code in lower case with underscores: `applyClientFilter`
-- is `apply_client_filter`.
--
-- `Server` is the store behind the triage requests, internal/triage/repo.go of the manager (Go), with
-- the tables of schema.go: `Server.Upsert`, `Server.Notes` and `Server.Listing` are its calls,
-- `Server.Action` the statements that they have the database execute, and `Server.Ends`,
-- `Server.Effects` and `Server.Replies` the ways in which a call can end. `Server.Runs` has calls one
-- after another, `Server.Sound` what the tables hold between two of them, and `Server.History` and
-- `Server.Recall` what is read from them. `Server.Handlers` is internal/api/v1/triage.go.
-- `Server.Console` puts the slide-over on top: a payload as the server decodes it (`received`), and a
-- note that is submitted to the store (`submit`, `perform`). `Server.Limiter` is the limiter of the
-- login route, internal/api/v1/ratelimit.go, with the runs of its attempts (`Limiter.Bounds`) and of
-- its middleware (`Limiter.Requests`); its lock makes the calls follow one another, and
-- `is_loopback` is a parameter.
--
-- Conventions. A text is a `String`; the order of texts and their trimming follow the UTF-16 units
-- that the language compares (`Prelude.Text`). A number that the code only passes on is kept by
-- its decimal text (`Number`). A property that may be missing is an `Option`, and a value of
-- unknown shape is a `Json`. Reading an object literal at a key, the console never uses the names
-- that every object inherits, and the model has own properties only. A callback into a component's
-- state is a function from state to state; a promise is an `Outcome`; the effect of time is an
-- explicit clock. The comparison sort of the language is stable and gives its result by the
-- comparison alone; it is modelled by an insertion sort, whose results are the same.
--
-- Parameters. `fetch`, `JSON.parse`, the printing of a number, `toLowerCase`, `toUpperCase`,
-- `encodeURIComponent`, the printing of a query, `JSON.stringify`, `Date.parse`, `toISOString`,
-- `toFixed` and the comparison of scores belong to the platform, and are arguments; so is
-- `distance`, which stands for `formatDistanceToNowStrict` of date-fns and has no value where that
-- throws. The query library keeps the pages and runs the attempts of a query: what it can hold is
-- the relation `Paging.Cursors.Loaded`, and how it retries is the relation
-- `Triage.Retries.Settles`. The answers of the server are arbitrary where no hypothesis says
-- otherwise; a later page of the list of compliance rows may fail to load.
--
-- The database of the triage store may fail at any statement: `Faults` says at which. Its tables are
-- lists in the order of insertion, its keys and checks are tests of the statements, and an error
-- within a transaction gives back the tables from before it. A time of the store is a number of
-- nanoseconds; `format_ts` and `parse_ts` stand for its text, which has a fixed width, so that the
-- database orders texts as the numbers are ordered. What a limit below zero does, zero does.
--
-- Fuel. `load_until` runs on fuel; with one page loaded, more fuel than the server has cursors is
-- enough, since no cursor is asked for twice. `Server.Listing.Walks.walk`, which follows the cursors
-- of the store, runs on fuel for one page more than there are rows.
--
-- Not modelled: the markup and its class names beyond the ones named above, the width of the risk
-- bar, the skeletons, the tabs of the fleet header, the libraries under web/src/components/ui,
-- browser effects (focus, clipboard), the setup of the router and of the query library, and the
-- rest of the server under internal/ (sessions, the proxy to the fleet and its cache, settings),
-- with the decoding of JSON and the texts of its errors. The texts of the buttons in the queue and
-- in the forms of the slide-over, and the places of the portals at the end of the document, are data
-- of `Alerts.Page.Around`.
pub mod Prelude
pub mod Api
pub mod Paging
pub mod Display
pub mod Alerts
pub mod Triage
pub mod Fleet
pub mod Shortcuts
pub mod Session
pub mod Navigation
pub mod Server
pub mod Checks
