-- ===== src/Approvals/Operations.antt =====
-- crates/tideline-server/src/tlr/approvals.rs: opening, deciding and expiring gates, over the SQLite
-- store. `resolve` is two calls of the store, a read and an append.
use tideline.Base.{
  ℕ, suc, String, Bool, false, Option, none, some, List, [], ◌∷◌, ◌==◌, ◌&&◌, if◌then◌else◌, leb,
}
use tideline.Base.Json.{Value, bool, number, string, object, no_fields, field, from_option}
use tideline.Platform.{Platform}
use tideline.Signing.{Signing}
use tideline.Proto.Kind
use tideline.Proto.Event.{RunEvent}
use tideline.Record.Store.{
  RunKey, NewEvent, StoreResult, ok, err, not_found, conflict, gate_resolved, ok_or, ◌>>=◌,
}
use tideline.Record.Tables.{Db}
use tideline.Record.Sqlite.{append, events}
use tideline.Approvals.{
  Gate, Decision, expired, as_word, is_pending, project, requested_name, resolved_name,
}

unfoldable pub find_gate : ℕ → List Gate → Option Gate
find_gate target [] = none
find_gate target (g ∷ gs) =
    let rest = find_gate target gs in if g.seq == target then some g else rest

-- The places of the gates that are pending past their expiry.
unfoldable pub lapsed : ℕ → List Gate → List ℕ
lapsed now_ms [] = []
lapsed now_ms (g ∷ gs) =
    let rest = lapsed now_ms gs in
    if is_pending g.state && leb g.expires_at now_ms then g.seq ∷ rest else rest

module _ (p : Platform) (s : Signing) where
  unfoldable pub decision_event : String → Value → NewEvent p
  decision_event name metadata = record {
    kind = Kind.decision;
    role = none;
    name = some name;
    content = none;
    metadata = some (p.to_raw metadata);
  }

  unfoldable pub request : Db p s → ℕ → RunKey → String → ℕ → StoreResult (ℕ × Db p s)
  request db now k action expires_at = do
    done ←
        append p s db now k
          (decision_event requested_name (
            object
              (field "action" (string action) (field "expires_at" (number expires_at) no_fields))))
          none
    ok (done.0.seq, done.1)

  unfoldable pub resolution :
      ℕ → Decision → Option String → Option String → Bool → Option String → Value
  resolution target decision reviewer reviewer_principal attested note = object (
      field "target_seq" (number target) (
        field "decision" (string (as_word decision)) (
          field "reviewer" (from_option reviewer) (
            field "reviewer_principal" (from_option reviewer_principal)
              (field "attested" (bool attested) (field "note" (from_option note) no_fields))))))

  unfoldable pub resolve :
      Db p s
      → ℕ
      → RunKey
      → ℕ
      → Decision
      → Option String
      → Option String
      → Bool
      → Option String
      → StoreResult (ℕ × Db p s)
  resolve db now k target decision reviewer reviewer_principal attested note = do
    gate ← ok_or not_found (find_gate target (project p (events p s db k 0 5000)))
    if is_pending gate.state
        then (append p s db now k
              (decision_event resolved_name
                (resolution target decision reviewer reviewer_principal attested note))
              none
            >>= λ done. ok (done.0.seq, done.1))
        else err (conflict (gate_resolved target))

  -- The loop of `expire_lapsed_in`. A `resolve` that fails ends it, and what the earlier ones wrote
  -- stays. The clock is read once for each write.
  unfoldable pub expire_each : Db p s → (ℕ → ℕ) → RunKey → ℕ → List ℕ → StoreResult ℕ × Db p s
  expire_each db clock k n [] = (ok n, db)
  expire_each db clock k n (target ∷ rest) =
      elim (resolve db (clock n) k target expired none none false
        (some "no decision before expiry")) [
          | err e ↦ (err e, db)
          | ok done ↦ expire_each done.1 clock k (suc n) rest
        ]

  unfoldable pub expire_lapsed_in :
      Db p s → (ℕ → ℕ) → RunKey → List (RunEvent p) → ℕ → StoreResult ℕ × Db p s
  expire_lapsed_in db clock k evs now_ms = expire_each db clock k 0 (lapsed now_ms (project p evs))

  unfoldable pub expire_lapsed : Db p s → (ℕ → ℕ) → RunKey → ℕ → StoreResult ℕ × Db p s
  expire_lapsed db clock k now_ms = expire_lapsed_in db clock k (events p s db k 0 5000) now_ms
