-- ===== src/Routes/Refines.antt =====
-- crates/tideline-server/src/tlr/routes.rs against the store of crates/tideline-server/src/tlr/sqlite.rs.
use tideline.Base.{
  ℕ, ◌≡◌, refl, sym, ◌∙◌, ap, subst, inl, inr, ◌⊎◌, String, Bool, true, false, some, List, [], ◌∷◌,
  ◌++◌, All, All-append,
}
use tideline.Platform.{Platform}
use tideline.Signing.{Signing}
use tideline.Auth.{granted}
use tideline.Proto.Chain
use tideline.Proto.Chain.{ChainOk, verify_chain}
use tideline.Record.Store.{RunKey}
use tideline.Record.Tables.{RunRow}
use tideline.Record.Sqlite.{find_run}
use tideline.Record.Invariant.{record_of}
use tideline.Record.History.{Call, run, Matches, record_verifies}
use tideline.Routes.{Headers, Server, TlrState, authorize}
use tideline.Routes.Served.{
  Request, creates_run, appends_event, completes_run, creates_approval, lists_approvals,
  gets_approval, resolves_approval, redacts_fields, handle, serve, started,
}
use tideline.Routes.Calls.{
  Permitted, Reaches, run-append, append_event-Answered, create_run-Answered,
}
use tideline.Routes.EndCalls.{complete_run-Answered, redact-Answered}
use tideline.Routes.GateCalls.{
  create_approval-Answered, list_approvals-Answered, get_approval-Answered,
  resolve_approval-Answered,
}

module _ (p : Platform) (s : Signing) where
  abbrev pub headers_of : Request p → Headers
  headers_of (creates_run headers body) = headers
  headers_of (appends_event id headers body) = headers
  headers_of (completes_run id headers) = headers
  headers_of (creates_approval id headers body) = headers
  headers_of (lists_approvals id headers) = headers
  headers_of (gets_approval id seq headers) = headers
  headers_of (resolves_approval id seq headers body) = headers
  headers_of (redacts_fields id headers body) = headers

  -- The requests that ask to write; a read of gates may still write that they have expired.
  abbrev pub asks_to_write : Request p → Bool
  asks_to_write (lists_approvals id headers) = false
  asks_to_write (gets_approval id seq headers) = false
  asks_to_write (creates_run headers body) = true
  asks_to_write (appends_event id headers body) = true
  asks_to_write (completes_run id headers) = true
  asks_to_write (creates_approval id headers body) = true
  asks_to_write (resolves_approval id seq headers body) = true
  asks_to_write (redacts_fields id headers body) = true

  -- Whatever a request is, it leaves the store as it was, or its credential is granted a namespace,
  -- and what it does to the store is a sequence of calls, each of which names a run of that namespace
  -- with a valid id, appends no structural event, and redacts under an authority that is not blank.
  pub handle-Answered :
      (st : TlrState s) (clock : ℕ → ℕ) (srv : Server p s) (req : Request p)
      → (((handle p s st clock srv req).1.db ≡ srv.db)
          ⊎ ((ns : String) × (authorize st (headers_of req) (asks_to_write req) ≡ granted ns)
              × Reaches p s ns srv.db (handle p s st clock srv req).1.db))
  unfolding handle
  handle-Answered st clock srv (creates_run headers body) =
      create_run-Answered p s st clock srv headers body
  handle-Answered st clock srv (appends_event id headers body) =
      append_event-Answered p s st clock srv id headers body
  handle-Answered st clock srv (completes_run id headers) =
      complete_run-Answered p s st clock srv id headers
  handle-Answered st clock srv (creates_approval id headers body) =
      create_approval-Answered p s st clock srv id headers body
  handle-Answered st clock srv (lists_approvals id headers) =
      list_approvals-Answered p s st clock srv id headers
  handle-Answered st clock srv (gets_approval id seq headers) =
      get_approval-Answered p s st clock srv id seq headers
  handle-Answered st clock srv (resolves_approval id seq headers body) =
      resolve_approval-Answered p s st clock srv id seq headers body
  handle-Answered st clock srv (redacts_fields id headers body) =
      redact-Answered p s st clock srv id headers body

  -- A call that some namespace permits.
  abbrev pub Allowed : Call p s → Type 0
  Allowed c = (ns : String) × Permitted p s ns c

  Permitted-Allowed :
      (ns : String) (cs : List (Call p s)) → All (Permitted p s ns) cs → All Allowed cs
  Permitted-Allowed ns [] h = tt
  Permitted-Allowed ns (c ∷ cs) h = ((ns, h.0), Permitted-Allowed ns cs h.1)

  pub serve-run :
      (srv : Server p s) (reqs : List (TlrState s × (ℕ → ℕ) × Request p))
      → (cs : List (Call p s)) × ((serve p s srv reqs).db ≡ run p s srv.db cs) × All Allowed cs
  unfolding serve run
  serve-run srv [] = ([], refl, tt)
  serve-run srv ((st, clock, req) ∷ rest) =
      let next = (handle p s st clock srv req).1 in
      let (ds, d, k) = serve-run next rest in
      elim (handle-Answered st clock srv req) [
        | inl e ↦ (ds, d ∙ ap (λ db. run p s db ds) e, k)
        | inr (ns, g, (cs, e, h)) ↦ (
          cs ++ ds,
          d ∙ ap (λ db. run p s db ds) e ∙ sym (run-append p s srv.db cs ds),
          All-append Allowed cs ds (Permitted-Allowed ns cs h) k,
        )
      ]

  -- Whatever requests a server has answered since its tables were empty, under whatever credentials,
  -- clocks and configurations, the verifier accepts the record of each of its runs, with the head that
  -- the run's row gives.
  pub served_verifies :
      (reqs : List (TlrState s × (ℕ → ℕ) × Request p)) (k : RunKey) (r : RunRow)
      → find_run p s (serve p s (started p s) reqs).db k ≡ some r
      → (report : ChainOk) × (verify_chain p
            (record_of p ((serve p s (started p s) reqs).db.events k))
          ≡ Chain.ok report)
        × Matches p s r report
  served_verifies reqs k r h =
      let (cs, e, _) = serve-run (started p s) reqs in
      let (report, v, m) =
        record_verifies p s cs k r (subst (λ db. find_run p s db k ≡ some r) e h) in
      (
        report,
        subst (λ db. verify_chain p (record_of p (db.events k)) ≡ Chain.ok report) (sym e) v,
        m,
      )
