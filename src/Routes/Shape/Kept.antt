-- ===== src/Routes/Shape/Kept.antt =====
-- crates/tideline-server/src/tlr/routes.rs: the shape of records, whatever the routes were asked.
use tideline.Base.{
  ℕ, ◌≡◌, sym, ◌∙◌, ap, subst, inl, inr, String, false, Option, none, some, List, [], ◌∷◌, ◌++◌,
  All, arith, Option-cases, some_cancel,
}
use tideline.Base.Table
use tideline.Platform.{Platform}
use tideline.Signing.{Signing}
use tideline.Proto.Kind.{EventKind, run_finished, redaction, kind_discrete}
use tideline.Record.Store.{
  RunKey, dec_key, NewRun, NewEvent, AppendResult, StoreResult, ok, Result-cases, ◌>>=◌,
}
use tideline.Record.Store
use tideline.Record.Tables.{RunRow, EventRow, Db, row_to_event, find_row, replace_row}
use tideline.Record.Sqlite.{
  find_run, next_row, first_row, run_row, append, seal, create_run, prior, remember, append_in_tx,
  result_of,
}
use tideline.Record.Redact.{redact, erased, check_fields}
use tideline.Record.Redact.Keeps.{erased-SameInChain}
use tideline.Record.Checkpoints.{insert_checkpoint}
use tideline.Record.Invariant.{IsSound, RunOk, update_self}
use tideline.Record.Sound.{
  Appending, missing, closed, clash, written, append_in_tx-Appending, appended,
}
use tideline.Record.Sound.Calls.{
  opened, create_run_taken, create_run_free, append_repeated, append_new,
}
use tideline.Record.Sound.Sealing.{
  seal_refused, seal_missing, seal_as_append, sealing, seal_result, update_run_found,
}
use tideline.Record.Sound.Redaction.{swapped, redact_structural, redact_missing, redact_found}
use tideline.Record.History.{
  Call, creates, appends, seals, redacts, checkpoints, step, run, empty, step-IsSound,
  empty-IsSound,
}
use tideline.Record.Moves.{key_of, step-Moves}
use tideline.Record.Growing.{Moves-SameRun}
use tideline.Routes.Handlers.{is_structural}
use tideline.Routes.{TlrState}
use tideline.Routes.Served.{Request, serve, started}
use tideline.Routes.Refines.{Allowed, serve-run}
use tideline.Routes.Shape.{
  Middle, Begun, Shaped, kinds, kinds-append, kinds-replace_row, next_row_kind, first_row_kind,
  ShapedAt, ShapedAt-appended, Shapes, Appending-Shapes,
}

structural_or : (k : EventKind) → is_structural k ≡ false → Middle k
unfolding is_structural kind_discrete
structural_or k h = (λ e. ground (arith, h, e), λ e. ground (arith, h, e))

redaction_Middle : Middle redaction
redaction_Middle = (λ e. ground arith, λ e. ground arith)

module _ (p : Platform) (s : Signing) where
  opened-ShapedAt :
      (db : Db p s) (now : ℕ) (k : RunKey) (new : NewRun)
      → db.events k ≡ []
      → ShapedAt p s k (opened p s db now k new)
  opened-ShapedAt db now k new e r found =
      let first = first_row p s now new in
      let row = run_row p s now new first.hash in
      let r1 : RunRow = record row { head_seq = first.seq; head_hash = first.hash } in
      let same : r1 ≡ r =
        some_cancel
          (sym (Table.get-insert_self dec_key k r1 (Table.insert dec_key k row db.runs)) ∙ found) in
      let rows : kinds p ((opened p s db now k new).events k) ≡ (row_to_event p first).kind ∷ [] =
        ap (kinds p) (update_self p db.events k (db.events k ++ first ∷ []))
        ∙ ap (λ l. kinds p (l ++ first ∷ [])) e in
      subst (λ o. Shaped o (kinds p ((opened p s db now k new).events k)))
        (ap (λ q. q.ended_ts) same) (subst Begun (sym rows) (first_row_kind p s now new, tt))

  creates-Shapes :
      (db : Db p s) (now : ℕ) (ns : String) (new : NewRun)
      → IsSound p s db
      → ShapedAt p s (ns, new.run_id) db
      → Shapes p s (ns, new.run_id) db (create_run p s db now ns new)
  creates-Shapes db now ns new all h = elim (Option-cases (find_run p s db (ns, new.run_id))) [
    | inr (r, f) ↦
        subst (Shapes p s (ns, new.run_id) db) (sym (create_run_taken p s db now ns new r f)) h
    | inl f ↦
        let k : RunKey = (ns, new.run_id) in
        let e : db.events k ≡ [] = subst (λ o. RunOk p o (db.events k)) f (all k) in
        subst (Shapes p s k db) (sym (create_run_free p s db now ns new f e))
          (opened-ShapedAt db now k new e)
  ]

  remembered :
      (db : Db p s) (k : RunKey) (x : StoreResult (AppendResult × Db p s)) (key : Option String)
      → Shapes p s k db x
      → Shapes p s k db (x >>= λ done. ok (remember p s k key done))
  unfolding remember
  remembered db k (ok (res, db1)) none h = h
  remembered db k (ok (res, db1)) (some key) h = h
  remembered db k (Store.err e) key h = h

  appends-Shapes :
      (db : Db p s) (now : ℕ) (k : RunKey) (event : NewEvent p) (idem : Option String)
      → is_structural event.kind ≡ false
      → ShapedAt p s k db
      → Shapes p s k db (append p s db now k event idem)
  appends-Shapes db now k event idem plain h = elim (Option-cases (prior p s db k idem)) [
    | inr (res, e) ↦ subst (Shapes p s k db) (sym (append_repeated p s db now k event idem res e)) h
    | inl e ↦ subst (Shapes p s k db) (sym (append_new p s db now k event idem e)) (
        remembered db k (append_in_tx p s db now k event) idem (
          Appending-Shapes p s (structural_or event.kind plain) h
            (append_in_tx-Appending p s db now k event)))
  ]

  ended-ShapedAt :
      (db : Db p s) (now : ℕ) (k : RunKey) (n : ℕ) (r : RunRow)
      → ShapedAt p s k db
      → find_run p s db k ≡ some r
      → r.ended_ts ≡ none
      → ShapedAt p s k (
          (seal_result p s k (
            result_of p s (next_row p s r.head_seq r.head_hash now (sealing p s n)),
            appended p s db k r (next_row p s r.head_seq r.head_hash now (sealing p s n)),
          )).1)
  unfolding seal_result sealing
  ended-ShapedAt db now k n r shaped f o r' found =
      let row = next_row p s r.head_seq r.head_hash now (sealing p s n) in
      let made = appended p s db k r row in
      let r1 : RunRow = record r { head_seq = row.seq; head_hash = row.hash } in
      let r2 : RunRow = record r1 { ended_ts = some row.ts } in
      let change : RunRow → RunRow = λ q. record q { ended_ts = some row.ts } in
      let here = Table.get-insert_self dec_key k r1 db.runs in
      let whole = update_run_found p s made k change r1 here in
      let found' : find_run p s (record made { runs = Table.insert dec_key k r2 made.runs }) k
          ≡ some r' =
        subst (λ d. find_run p s d k ≡ some r') whole found in
      let same : r2 ≡ r' =
        some_cancel (sym (Table.get-insert_self dec_key k r2 made.runs) ∙ found') in
      let before : Begun (kinds p (db.events k)) =
        subst (λ e. Shaped e (kinds p (db.events k))) o (shaped r f) in
      let rows : kinds p (made.events k) ≡ kinds p (db.events k) ++ run_finished ∷ [] =
        ap (kinds p) (update_self p db.events k (db.events k ++ row ∷ []))
        ∙ kinds-append p (db.events k) (row ∷ [])
        ∙ ap (λ e. kinds p (db.events k) ++ e ∷ [])
            (next_row_kind p s r.head_seq r.head_hash now (sealing p s n)) in
      subst (λ d. Shaped r'.ended_ts (kinds p (d.events k))) (sym whole)
        (subst (λ e. Shaped e (kinds p (made.events k))) (ap (λ q. q.ended_ts) same)
          (kinds p (db.events k), rows, before))

  sealed-Shapes :
      {db : Db p s} {now : ℕ} {k : RunKey} (n : ℕ) {x : StoreResult (AppendResult × Db p s)}
      → ShapedAt p s k db
      → Appending p s db now k (sealing p s n) x
      → Shapes p s k db (x >>= λ done. ok (seal_result p s k done))
  sealed-Shapes n h (missing a) = h
  sealed-Shapes n h (closed r t a b) = h
  sealed-Shapes n h (clash r a b) = h
  sealed-Shapes {db} {now} {k} n h (written r a b) = ended-ShapedAt db now k n r h a b

  seals-Shapes :
      (db : Db p s) (now : ℕ) (k : RunKey) → ShapedAt p s k db → Shapes p s k db (seal p s db now k)
  seals-Shapes db now k h = elim (Option-cases (find_run p s db k)) [
    | inl f ↦ subst (Shapes p s k db) (sym (seal_missing p s db now k f)) h
    | inr (r, f) ↦ elim (Option-cases r.ended_ts) [
      | inr (t, e) ↦ subst (Shapes p s k db) (sym (seal_refused p s db now k r t f e)) h
      | inl e ↦ subst (Shapes p s k db) (sym (seal_as_append p s db now k r f e)) (
          sealed-Shapes r.head_seq h (append_in_tx-Appending p s db now k (sealing p s r.head_seq)))
    ]
  ]

  swapped-ShapedAt :
      (db : Db p s) (k : RunKey) (target : ℕ) (old : EventRow p) (fields : List String)
      → find_row p target (db.events k) ≡ some old
      → ShapedAt p s k db
      → ShapedAt p s k (swapped p s db k target old fields)
  swapped-ShapedAt db k target old fields e h r found =
      let kept = erased-SameInChain p old fields in
      let new = erased p old fields in
      subst (Shaped r.ended_ts)
        (sym (
          ap (kinds p) (update_self p db.events k (replace_row p target new (db.events k)))
          ∙ kinds-replace_row p target old new (db.events k) e kept.kind))
        (h r found)

  erases-Shapes :
      (db : Db p s) {db1 : Db p s} {now : ℕ} {k : RunKey} {event : NewEvent p}
      {x : StoreResult (AppendResult × Db p s)}
      → Middle event.kind
      → ShapedAt p s k db
      → ShapedAt p s k db1
      → Appending p s db1 now k event x
      → Shapes p s k db x
  erases-Shapes db m h h1 (missing a) = h
  erases-Shapes db m h h1 (closed r t a b) = h
  erases-Shapes db m h h1 (clash r a b) = h
  erases-Shapes db {db1} {now} {k} {event} m h h1 (written r a b) =
      ShapedAt-appended p s db1 k r _ a b
        (subst Middle (sym (next_row_kind p s r.head_seq r.head_hash now event)) m) h1

  redacts-Shapes :
      (db : Db p s) (now : ℕ) (k : RunKey) (target : ℕ) (fields : List String) (authority : String)
      → ShapedAt p s k db
      → Shapes p s k db (redact p s db now k target fields authority)
  redacts-Shapes db now k target fields authority h = elim (Result-cases (check_fields fields)) [
    | inr (x, f) ↦
        subst (Shapes p s k db) (sym (redact_structural p s db now k target fields authority x f)) h
    | inl (u, f) ↦ elim (Option-cases (find_row p target (db.events k))) [
      | inl e ↦
          subst (Shapes p s k db) (sym (redact_missing p s db now k target fields authority f e)) h
      | inr (old, e) ↦
          subst (Shapes p s k db) (sym (redact_found p s db now k target fields authority old f e))
            (erases-Shapes db redaction_Middle h (swapped-ShapedAt db k target old fields e h)
              (append_in_tx-Appending p s (swapped p s db k target old fields) now k _))
    ]
  ]

  step-ShapedAt :
      (db : Db p s) (c : Call p s)
      → IsSound p s db
      → Allowed p s c
      → ShapedAt p s (key_of p s c) db
      → ShapedAt p s (key_of p s c) (step p s db c)
  unfolding step insert_checkpoint
  step-ShapedAt db (creates now ns new) all a h = creates-Shapes db now ns new all h
  step-ShapedAt db (appends now k event idem) all (ns, a) h =
      appends-Shapes db now k event idem a.2 h
  step-ShapedAt db (seals now k) all a h = seals-Shapes db now k h
  step-ShapedAt db (redacts now k target fields authority) all a h =
      redacts-Shapes db now k target fields authority h
  step-ShapedAt db (checkpoints k cp) all a h = h

  step-Shaped :
      (db : Db p s) (c : Call p s)
      → IsSound p s db
      → Allowed p s c
      → ((k : RunKey) → ShapedAt p s k db)
      → (k : RunKey) → ShapedAt p s k (step p s db c)
  step-Shaped db c all a h k = elim (dec_key (key_of p s c) k) [
    | yes e ↦
        subst (λ j. ShapedAt p s j (step p s db c)) e (step-ShapedAt db c all a (h (key_of p s c)))
    | no n ↦
        let other = Moves-SameRun p s k n (step-Moves p s db c all) in
        λ r found.
          subst (λ rows. Shaped r.ended_ts (kinds p rows)) (sym other.events)
            (h k r (sym other.row ∙ found))
  ]

  run-Shaped :
      (db : Db p s) (cs : List (Call p s))
      → IsSound p s db
      → All (Allowed p s) cs
      → ((k : RunKey) → ShapedAt p s k db)
      → (k : RunKey) → ShapedAt p s k (run p s db cs)
  unfolding run
  run-Shaped db [] all a h = h
  run-Shaped db (c ∷ cs) all a h =
      run-Shaped (step p s db c) cs (step-IsSound p s db c all) a.1 (step-Shaped db c all a.0 h)

  -- Whatever requests a server has answered since its tables were empty, each record has
  -- `run_started` as its first event and nowhere else, and `run_finished` as its last event if its
  -- run has ended and nowhere else.
  pub served_shape :
      (reqs : List (TlrState s × (ℕ → ℕ) × Request p)) (k : RunKey) (r : RunRow)
      → find_run p s (serve p s (started p s) reqs).db k ≡ some r
      → Shaped r.ended_ts (kinds p ((serve p s (started p s) reqs).db.events k))
  unfolding Table.get
  served_shape reqs k r found =
      let (cs, e, allowed) = serve-run p s (started p s) reqs in
      let all =
        run-Shaped (empty p s) cs (empty-IsSound p s) allowed (λ j q h. absurd (ground arith)) k in
      subst
        (λ db.
          (r : RunRow) → find_run p s db k ≡ some r → Shaped r.ended_ts (kinds p (db.events k)))
        (sym e) all r found
