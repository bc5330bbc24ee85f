-- ===== src/Routes/Served.antt =====
-- `router` of crates/tideline-server/src/tlr/routes.rs: the requests that may write, and a server that
-- answers them one after the other.
use tideline.Base.{ℕ, String, Option, List, [], ◌∷◌}
use tideline.Platform.{Platform}
use tideline.Signing.{Signing}
use tideline.Record.Store.{NewRun, NewEvent}
use tideline.Record.History.{empty}
use tideline.Metrics.{fresh}
use tideline.Routes.{Headers, Response, Server, TlrState}
use tideline.Routes.Handlers.{RedactBody, create_run, append_event, complete_run, redact}
use tideline.Routes.Gates.{
  CreateApproval, ResolveApproval, create_approval, list_approvals, get_approval, resolve_approval,
}

module _ (p : Platform) where
  pub data Request : Type 0 where
    creates_run : Headers → Option NewRun → Request
    appends_event : String → Headers → Option (NewEvent p) → Request
    completes_run : String → Headers → Request
    creates_approval : String → Headers → Option CreateApproval → Request
    lists_approvals : String → Headers → Request
    gets_approval : String → ℕ → Headers → Request
    resolves_approval : String → ℕ → Headers → Option ResolveApproval → Request
    redacts_fields : String → Headers → Option RedactBody → Request

module _ (p : Platform) (s : Signing) where
  -- The tables are empty when the server starts for the first time.
  abbrev pub started : Server p s
  started = record { db = empty p s; metrics = fresh; spine = [] }

  -- One request, with the clock as it reads while it runs.
  unfoldable pub handle : TlrState s → (ℕ → ℕ) → Server p s → Request p → Response p s × Server p s
  handle st clock srv (creates_run headers body) = create_run p s st clock srv headers body
  handle st clock srv (appends_event id headers body) =
      append_event p s st clock srv id headers body
  handle st clock srv (completes_run id headers) = complete_run p s st clock srv id headers
  handle st clock srv (creates_approval id headers body) =
      create_approval p s st clock srv id headers body
  handle st clock srv (lists_approvals id headers) = list_approvals p s st clock srv id headers
  handle st clock srv (gets_approval id seq headers) = get_approval p s st clock srv id seq headers
  handle st clock srv (resolves_approval id seq headers body) =
      resolve_approval p s st clock srv id seq headers body
  handle st clock srv (redacts_fields id headers body) = redact p s st clock srv id headers body

  -- Requests one after the other, each under the configuration and the clock of its time.
  unfoldable pub serve : Server p s → List (TlrState s × (ℕ → ℕ) × Request p) → Server p s
  serve srv [] = srv
  serve srv ((st, clock, req) ∷ rest) = serve (handle st clock srv req).1 rest
