-- ===== src/Record/History.antt =====
-- The store of crates/tideline-server/src/tlr/sqlite.rs over any sequence of calls.
use tideline.Base.{
  ℕ, suc, ◌≡◌, refl, sym, ◌∙◌, subst, String, true, Option, some, List, [], ◌∷◌, ite, arith, false,
  length, length-map, last_or, map, ap, if_pos, some_cancel,
}
use tideline.Base.Table
use tideline.Platform.{Platform}
use tideline.Signing.{Signing}
use tideline.Proto.Kind
use tideline.Proto.Kind.{run_finished, kind_discrete}
use tideline.Proto.Digest.{zero_hash}
use tideline.Proto.Checkpoint.{Checkpoint}
use tideline.Proto.Chain.{ChainOk, verify_chain}
use tideline.Proto.Chain
use tideline.Proto.Chain.Linked.{head_after-last_or, last_or-seq}
use tideline.Proto.Chain.Verify.{verify_chain_iff, verify_chain_total}
use tideline.Record.Store.{RunKey, NewRun, NewEvent, StoreResult, ok, err}
use tideline.Record.Tables.{RunRow, EventRow, Db, row_to_event}
use tideline.Record.Sqlite.{find_run, create_run, append, seal}
use tideline.Record.Redact.{redact}
use tideline.Record.Checkpoints.{insert_checkpoint}
use tideline.Record.Invariant.{IsSound, IsRecord, record_of, last_kind, EndsSealed}
use tideline.Record.Sound.{Leaves, found-IsRecord}
use tideline.Record.Sound.Calls.{create_run-IsSound, append-IsSound}
use tideline.Record.Sound.Sealing.{seal-IsSound}
use tideline.Record.Sound.Redaction.{redact-IsSound}

module _ (p : Platform) (s : Signing) where
  -- The writing methods of `TlrStore`, each with the time at which it runs.
  pub data Call : Type 0 where
    creates : ℕ → String → NewRun → Call
    appends : ℕ → RunKey → NewEvent p → Option String → Call
    seals : ℕ → RunKey → Call
    redacts : ℕ → RunKey → ℕ → List String → String → Call
    checkpoints : RunKey → Checkpoint s → Call

  -- A transaction that fails leaves the database as it was; so does a `put_checkpoint` that cannot
  -- write, which is no call here.
  abbrev pub after : {A : Type 0} → Db p s → StoreResult (A × Db p s) → Db p s
  after db (ok (a, db')) = db'
  after db (err e) = db

  unfoldable pub step : Db p s → Call → Db p s
  step db (creates now ns new) = after db (create_run p s db now ns new)
  step db (appends now k event idem) = after db (append p s db now k event idem)
  step db (seals now k) = after db (seal p s db now k)
  step db (redacts now k target fields authority) =
      after db (redact p s db now k target fields authority)
  step db (checkpoints k cp) = insert_checkpoint p s db k cp

  unfoldable pub run : Db p s → List Call → Db p s
  run db [] = db
  run db (c ∷ cs) = run (step db c) cs

  -- `SqliteTlrStore::init` on an empty database.
  abbrev pub empty : Db p s
  empty = record { runs = []; events = λ _. []; idem = λ _. []; checkpoints = λ _. [] }

  after-IsSound :
      {A : Type 0} (db : Db p s) (x : StoreResult (A × Db p s))
      → IsSound p s db
      → Leaves p s (IsSound p s) x
      → IsSound p s (after db x)
  after-IsSound db (ok (a, db')) all h = h
  after-IsSound db (err e) all h = all

  pub step-IsSound : (db : Db p s) (c : Call) → IsSound p s db → IsSound p s (step db c)
  unfolding step insert_checkpoint
  step-IsSound db (creates now ns new) all =
      after-IsSound db _ all (create_run-IsSound p s db now ns new all)
  step-IsSound db (appends now k event idem) all =
      after-IsSound db _ all (append-IsSound p s db now k event idem all)
  step-IsSound db (seals now k) all = after-IsSound db _ all (seal-IsSound p s db now k all)
  step-IsSound db (redacts now k target fields authority) all =
      after-IsSound db _ all (redact-IsSound p s db now k target fields authority all)
  step-IsSound db (checkpoints k cp) all = all

  pub run-IsSound : (db : Db p s) (cs : List Call) → IsSound p s db → IsSound p s (run db cs)
  unfolding run
  run-IsSound db [] all = all
  run-IsSound db (c ∷ cs) all = run-IsSound (step db c) cs (step-IsSound db c all)

  pub empty-IsSound : IsSound p s empty
  unfolding Table.get
  empty-IsSound k = refl

  -- What a report says of a run's row: the head, and the seal if the run has ended.
  pub record Matches (r : RunRow) (report : ChainOk) : Type 0 where
    pub head_seq : report.head_seq ≡ r.head_seq
    pub head_hash : report.head_hash ≡ r.head_hash
    pub is_sealed : (t : ℕ) → r.ended_ts ≡ some t → report.is_sealed ≡ true

  last_kind-last_or :
      (x : EventRow p) (xs : List (EventRow p))
      → last_kind p (x ∷ xs) ≡ some (last_or (row_to_event p x) (map (row_to_event p) xs)).kind
  last_kind-last_or x [] = refl
  last_kind-last_or x (y ∷ ys) = last_kind-last_or y ys

  sealed_report :
      (o : Option ℕ) (t : ℕ) (k : Kind.EventKind) (rows : List (EventRow p))
      → o ≡ some t
      → EndsSealed p o rows
      → last_kind p rows ≡ some k
      → ite (kind_discrete k run_finished) true false ≡ true
  sealed_report o t k rows e h l =
      let h' : last_kind p rows ≡ some run_finished = subst (λ v. EndsSealed p v rows) e h in
      if_pos (kind_discrete k run_finished) (some_cancel (sym l ∙ h')) true false

  IsRecord-verifies :
      (r : RunRow) (rows : List (EventRow p))
      → IsRecord p r rows
      → (report : ChainOk) × (verify_chain p (record_of p rows) ≡ Chain.ok report)
        × Matches r report
  IsRecord-verifies r [] h = absurd h.chain
  IsRecord-verifies r (x ∷ xs) h =
      let e = row_to_event p x in
      let es = record_of p xs in
      let (report, eq) = verify_chain_total p (e ∷ es) h.chain in
      let (c, d) = (verify_chain_iff p (e ∷ es) report).0 eq in
      let count : length (x ∷ xs) ≡ suc (length es) =
        ap suc (sym (length-map (row_to_event p) xs)) in
      (
        report,
        eq,
        record {
          head_seq = omega (arith, d.1, last_or-seq p 0 zero_hash e es c.1, h.head_seq, count);
          head_hash = d.2 ∙ sym (head_after-last_or p zero_hash e es) ∙ sym h.head_hash;
          is_sealed =
              λ t o. d.3 ∙ sealed_report r.ended_ts t _ (x ∷ xs) o h.ended (last_kind-last_or x xs);
        },
      )

  -- Whatever calls the store has run since it was empty, the verifier accepts the record of each of
  -- its runs; its report has the head of the run's row, and says that the record is sealed if the
  -- row has an end.
  pub record_verifies :
      (cs : List Call) (k : RunKey) (r : RunRow)
      → find_run p s (run empty cs) k ≡ some r
      → (report : ChainOk) × (verify_chain p (record_of p ((run empty cs).events k))
          ≡ Chain.ok report)
        × Matches r report
  record_verifies cs k r h =
      let db = run empty cs in
      IsRecord-verifies r (db.events k)
        (found-IsRecord p s db k r (run-IsSound empty cs empty-IsSound) h)
