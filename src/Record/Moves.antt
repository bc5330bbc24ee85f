-- ===== src/Record/Moves.antt =====
-- The calls of crates/tideline-server/src/tlr/sqlite.rs as moves on the tables, each under the conditions
-- that the code checks before it makes it.
use tideline.Base.{ℕ, ◌≡◌, sym, subst, String, Option, none, some, List, [], inl, inr, Option-cases}
use tideline.Base.{dec_text}
use tideline.Base.Table
use tideline.Platform.{Platform}
use tideline.Signing.{Signing}
use tideline.Proto.Checkpoint.{Checkpoint}
use tideline.Record.Store.{
  RunKey, dec_key, NewRun, NewEvent, AppendResult, StoreResult, ok, Result-cases, ◌>>=◌,
}
use tideline.Record.Tables.{RunRow, EventRow, Db, update, find_row}
use tideline.Record.Sqlite.{find_run, next_row, append, create_run, seal, prior, remember}
use tideline.Record.Redact.{redact, check_fields}
use tideline.Record.Checkpoints.{insert_checkpoint}
use tideline.Record.Invariant.{IsSound, RunOk}
use tideline.Record.Sound.{
  Appending, missing, closed, clash, written, append_in_tx-Appending, appended,
}
use tideline.Record.Sound.Calls.{
  opened, create_run_taken, create_run_free, append_repeated, append_new,
}
use tideline.Record.Sound.Sealing.{
  seal_refused, seal_missing, seal_as_append, sealing, seal_result, update_run_found,
}
use tideline.Record.Sound.Redaction.{swapped, redact_structural, redact_missing, redact_found}
use tideline.Record.History.{Call, creates, appends, seals, redacts, checkpoints, after, step}

module _ (p : Platform) (s : Signing) where
  -- One move on the run `k`.
  pub data Move (k : RunKey) (db : Db p s) : Db p s → Type 0 where
    opens :
        (now : ℕ) (new : NewRun)
        → find_run p s db k ≡ none
        → db.events k ≡ []
        → Move k db (opened p s db now k new)
    writes :
        (now : ℕ) (event : NewEvent p) (r : RunRow)
        → find_run p s db k ≡ some r
        → r.ended_ts ≡ none
        → Move k db (appended p s db k r (next_row p s r.head_seq r.head_hash now event))
    ends :
        (t : ℕ) (r : RunRow)
        → find_run p s db k ≡ some r
        → r.ended_ts ≡ none
        → Move k db
            (record db { runs = Table.insert dec_key k (record r { ended_ts = some t }) db.runs })
    erases :
        (target : ℕ) (fields : List String) (r : RunRow) (old : EventRow p)
        → find_run p s db k ≡ some r
        → r.ended_ts ≡ none
        → find_row p target (db.events k) ≡ some old
        → Move k db (swapped p s db k target old fields)
    remembers :
        (key : String) (res : AppendResult)
        → Table.get dec_text key (db.idem k) ≡ none
        → Move k db
            (record db { idem = update db.idem k (Table.insert dec_text key res (db.idem k)) })
    attests : (cp : Checkpoint s) → Move k db (insert_checkpoint p s db k cp)

  pub data Moves (k : RunKey) : Db p s → Db p s → Type 0 where
    stays : {db : Db p s} → Moves k db db
    moves : {db db1 db2 : Db p s} → Move k db db1 → Moves k db1 db2 → Moves k db db2

  -- The run that a call names.
  abbrev pub key_of : Call p s → RunKey
  key_of (creates now ns new) = (ns, new.run_id)
  key_of (appends now k event idem) = k
  key_of (seals now k) = k
  key_of (redacts now k target fields authority) = k
  key_of (checkpoints k cp) = k

  one : {k : RunKey} {db db1 : Db p s} → Move k db db1 → Moves k db db1
  one m = moves m stays

  -- Where a transaction leads: nowhere if it fails.
  abbrev Leads : {A : Type 0} → RunKey → Db p s → StoreResult (A × Db p s) → Type 0
  Leads k db x = Moves k db (after p s db x)

  create_run-Moves :
      (db : Db p s) (now : ℕ) (ns : String) (new : NewRun)
      → IsSound p s db
      → Leads (ns, new.run_id) db (create_run p s db now ns new)
  create_run-Moves db now ns new all = elim (Option-cases (find_run p s db (ns, new.run_id))) [
    | inr (r, h) ↦
        subst (Leads (ns, new.run_id) db) (sym (create_run_taken p s db now ns new r h)) stays
    | inl h ↦
        let e : db.events (ns, new.run_id) ≡ [] =
          subst (λ o. RunOk p o (db.events (ns, new.run_id))) h (all (ns, new.run_id)) in
        subst (Leads (ns, new.run_id) db) (sym (create_run_free p s db now ns new h e))
          (one (opens now new h e))
  ]

  remember-Moves :
      (db : Db p s) (now : ℕ) (k : RunKey) (event : NewEvent p) (idem : Option String)
      {x : StoreResult (AppendResult × Db p s)}
      → prior p s db k idem ≡ none
      → Appending p s db now k event x
      → Leads k db (x >>= λ done. ok (remember p s k idem done))
  unfolding remember prior
  remember-Moves db now k event idem e (missing h) = stays
  remember-Moves db now k event idem e (closed r t h o) = stays
  remember-Moves db now k event idem e (clash r h o) = stays
  remember-Moves db now k event none e (written r h o) = one (writes now event r h o)
  remember-Moves db now k event (some key) e (written r h o) =
      moves (writes now event r h o) (one (remembers key _ e))

  append-Moves :
      (db : Db p s) (now : ℕ) (k : RunKey) (event : NewEvent p) (idem : Option String)
      → Leads k db (append p s db now k event idem)
  append-Moves db now k event idem = elim (Option-cases (prior p s db k idem)) [
    | inr (res, h) ↦ subst (Leads k db) (sym (append_repeated p s db now k event idem res h)) stays
    | inl h ↦
        subst (Leads k db) (sym (append_new p s db now k event idem h))
          (remember-Moves db now k event idem h (append_in_tx-Appending p s db now k event))
  ]

  seal_result-Moves :
      {db : Db p s} {now : ℕ} {k : RunKey} {event : NewEvent p}
      {x : StoreResult (AppendResult × Db p s)}
      → Appending p s db now k event x
      → Leads k db (x >>= λ done. ok (seal_result p s k done))
  unfolding seal_result
  seal_result-Moves (missing h) = stays
  seal_result-Moves (closed r t h o) = stays
  seal_result-Moves (clash r h o) = stays
  seal_result-Moves {db} {now} {k} {event} (written r h o) =
      let row = next_row p s r.head_seq r.head_hash now event in
      let r1 : RunRow = record r { head_seq = row.seq; head_hash = row.hash } in
      let found = Table.get-insert_self dec_key k r1 db.runs in
      moves (writes now event r h o) (
        subst (Moves k (appended p s db k r row))
          (sym (
            update_run_found p s (appended p s db k r row) k
              (λ q. record q { ended_ts = some row.ts }) r1 found))
          (one (ends row.ts r1 found o)))

  seal-Moves : (db : Db p s) (now : ℕ) (k : RunKey) → Leads k db (seal p s db now k)
  seal-Moves db now k = elim (Option-cases (find_run p s db k)) [
    | inl h ↦ subst (Leads k db) (sym (seal_missing p s db now k h)) stays
    | inr (r, h) ↦ elim (Option-cases r.ended_ts) [
      | inr (t, e) ↦ subst (Leads k db) (sym (seal_refused p s db now k r t h e)) stays
      | inl e ↦
          subst (Leads k db) (sym (seal_as_append p s db now k r h e))
            (seal_result-Moves (append_in_tx-Appending p s db now k (sealing p s r.head_seq)))
    ]
  ]

  erases-Moves :
      (db : Db p s) (now : ℕ) (k : RunKey) (event : NewEvent p) (target : ℕ) (fields : List String)
      (old : EventRow p) {x : StoreResult (AppendResult × Db p s)}
      → find_row p target (db.events k) ≡ some old
      → Appending p s (swapped p s db k target old fields) now k event x
      → Leads k db x
  erases-Moves db now k event target fields old e (missing h) = stays
  erases-Moves db now k event target fields old e (closed r t h o) = stays
  erases-Moves db now k event target fields old e (clash r h o) = stays
  erases-Moves db now k event target fields old e (written r h o) =
      moves (erases target fields r old h o e) (one (writes now event r h o))

  redact-Moves :
      (db : Db p s) (now : ℕ) (k : RunKey) (target : ℕ) (fields : List String) (authority : String)
      → Leads k db (redact p s db now k target fields authority)
  redact-Moves db now k target fields authority = elim (Result-cases (check_fields fields)) [
    | inr (x, h) ↦
        subst (Leads k db) (sym (redact_structural p s db now k target fields authority x h)) stays
    | inl (u, h) ↦ elim (Option-cases (find_row p target (db.events k))) [
      | inl e ↦
          subst (Leads k db) (sym (redact_missing p s db now k target fields authority h e)) stays
      | inr (old, e) ↦
          subst (Leads k db) (sym (redact_found p s db now k target fields authority old h e)) (
            erases-Moves db now k _ target fields old e
              (append_in_tx-Appending p s (swapped p s db k target old fields) now k _))
    ]
  ]

  -- A call of the store moves only the run that it names, by the moves above.
  pub step-Moves :
      (db : Db p s) (c : Call p s) → IsSound p s db → Moves (key_of c) db (step p s db c)
  unfolding step
  step-Moves db (creates now ns new) all = create_run-Moves db now ns new all
  step-Moves db (appends now k event idem) all = append-Moves db now k event idem
  step-Moves db (seals now k) all = seal-Moves db now k
  step-Moves db (redacts now k target fields authority) all =
      redact-Moves db now k target fields authority
  step-Moves db (checkpoints k cp) all = one (attests cp)
