-- ===== src/Routes/Sealing.antt =====
-- `complete_run` of crates/tideline-server/src/tlr/routes.rs: the checkpoint of a sealed run.
use tideline.Base.{
  ℕ, ◌≡◌, ◌≢◌, refl, sym, ◌∙◌, ap, subst, inl, inr, String, true, none, some, arith, Option-cases,
  ℕ_discrete,
}
use tideline.Base.Table
use tideline.Platform.{Platform}
use tideline.Signing.{Signing, IsSigning}
use tideline.Auth.{granted}
use tideline.Proto.Digest.{Hash}
use tideline.Proto.Checkpoint
use tideline.Proto.Checkpoint.{Checkpoint, sign}
use tideline.Proto.Checkpoint.Signed.{verify-sign}
use tideline.Keys.{sign_head}
use tideline.Record.Store.{
  RunKey, dec_key, NewEvent, AppendResult, StoreError, StoreResult, ok, conflict, run_is_sealed,
  Result-cases, ◌>>=◌,
}
use tideline.Record.Store
use tideline.Record.Tables.{RunRow, Db, update}
use tideline.Record.Sqlite
use tideline.Record.Sqlite.{find_run, next_row}
use tideline.Record.Checkpoints.{insert_checkpoint, latest_checkpoint}
use tideline.Record.Sound.{
  Appending, missing, closed, clash, written, append_in_tx-Appending, appended,
}
use tideline.Record.Sound.Sealing.{
  seal_refused, seal_missing, seal_as_append, sealing, seal_result, update_run_found,
}
use tideline.Routes.{Headers, Server, TlrState, authorize, publish_head, err, counted}
use tideline.Routes.Calls.{publish_head-db, guarded-cases, write_checkpoint-cases}
use tideline.Metrics.{incr}
use tideline.Routes.Handlers.{complete_run, complete_checked, repair, repaired_with, sealed_with}

module _ (p : Platform) (s : Signing) where
  -- The row of a run that has ended, with the head that a result gives.
  abbrev EndsAt : Db p s → RunKey → ℕ → Hash → Type 0
  EndsAt db k seq head =
      (r : RunRow) × (t : ℕ) × (find_run p s db k ≡ some r)
      × (r.ended_ts ≡ some t)
      × (r.head_seq ≡ seq)
      × (r.head_hash ≡ head)

  ok_cancel : {A : Type 0} {a b : A} → ok a ≡ ok b → a ≡ b
  ok_cancel h = cc

  sealed_head :
      {db db' : Db p s} {now : ℕ} {k : RunKey} {event : NewEvent p} {res : AppendResult}
      {x : StoreResult (AppendResult × Db p s)}
      → Appending p s db now k event x
      → (x >>= λ done. ok (seal_result p s k done)) ≡ ok (res, db')
      → EndsAt db' k res.seq res.hash
  unfolding seal_result
  sealed_head (missing h) q = absurd (ground arith)
  sealed_head (closed r t h o) q = absurd (ground arith)
  sealed_head (clash r h o) q = absurd (ground arith)
  sealed_head {db} {db'} {now} {k} {event} (written r h o) q =
      let row = next_row p s r.head_seq r.head_hash now event in
      let r1 : RunRow = record r { head_seq = row.seq; head_hash = row.hash } in
      let r2 : RunRow = record r1 { ended_ts = some row.ts } in
      let found = Table.get-insert_self dec_key k r1 db.runs in
      let same =
        update_run_found p s (appended p s db k r row) k (λ q. record q { ended_ts = some row.ts })
          r1 found in
      let base : EndsAt
          (Sqlite.update_run p s (appended p s db k r row) k
            (λ q. record q { ended_ts = some row.ts }))
          k row.seq row.hash =
        subst (λ d. EndsAt d k row.seq row.hash) (sym same)
          (
            r2,
            row.ts,
            Table.get-insert_self dec_key k r2 (Table.insert dec_key k r1 db.runs),
            refl,
            refl,
            refl,
          ) in
      subst (λ d. EndsAt d.1 k d.0.seq d.0.hash) (ok_cancel q) base

  -- Sealing succeeds with the head of the run that it ends, and is a conflict only for one that has
  -- ended.
  seal-EndsAt :
      (db db' : Db p s) (now : ℕ) (k : RunKey) (res : AppendResult)
      → Sqlite.seal p s db now k ≡ ok (res, db')
      → EndsAt db' k res.seq res.hash
  seal-EndsAt db db' now k res q = elim (Option-cases (find_run p s db k)) [
    | inl h ↦ absurd (ground (arith, seal_missing p s db now k h))
    | inr (r, h) ↦ elim (Option-cases r.ended_ts) [
      | inr (t, e) ↦ absurd (ground (arith, seal_refused p s db now k r t h e))
      | inl e ↦
          sealed_head (append_in_tx-Appending p s db now k (sealing p s r.head_seq))
            (sym (seal_as_append p s db now k r h e) ∙ q)
    ]
  ]

  no_conflict :
      {db : Db p s} {now : ℕ} {k : RunKey} {event : NewEvent p} {m : Store.Message}
      {x : StoreResult (AppendResult × Db p s)} (r : RunRow)
      → find_run p s db k ≡ some r
      → r.ended_ts ≡ none
      → Appending p s db now k event x
      → (x >>= λ done. ok (seal_result p s k done)) ≢ Store.err (conflict m)
  no_conflict r h o (missing a) q = ground arith
  no_conflict r h o (closed r' t a b) q = ground arith
  no_conflict r h o (clash r' a b) q = ground arith
  no_conflict r h o (written r' a b) q = ground arith

  conflict-EndsAt :
      (db : Db p s) (now : ℕ) (k : RunKey) (m : Store.Message)
      → Sqlite.seal p s db now k ≡ Store.err (conflict m)
      → (r : RunRow) × (t : ℕ) × (find_run p s db k ≡ some r) × (r.ended_ts ≡ some t)
  conflict-EndsAt db now k m q = elim (Option-cases (find_run p s db k)) [
    | inl h ↦ absurd (ground (arith, seal_missing p s db now k h))
    | inr (r, h) ↦ elim (Option-cases r.ended_ts) [
      | inr (t, e) ↦ (r, t, h, e)
      | inl e ↦ absurd (
          no_conflict r h e (append_in_tx-Appending p s db now k (sealing p s r.head_seq))
            (sym (seal_as_append p s db now k r h e) ∙ q))
    ]
  ]

  -- A run has ended, and a checkpoint at its head is stored: it is of the run, gives the hash of the
  -- head, and verifies under the server's public key.
  pub record CoversHead (st : TlrState s) (db : Db p s) (k : RunKey) : Type 0 where
    pub row : RunRow
    pub ended : ℕ
    pub cp : Checkpoint s
    pub found : find_run p s db k ≡ some row
    pub has_ended : row.ended_ts ≡ some ended
    pub stored : Table.get ℕ_discrete row.head_seq (db.checkpoints k) ≡ some cp
    pub run_id : cp.run_id ≡ k.1
    pub seq : cp.seq ≡ row.head_seq
    pub head : cp.head_hash ≡ row.head_hash
    pub is_signed : Checkpoint.verify p s cp (s.verifying_key st.keys.key) ≡ Checkpoint.ok

  insert_checkpoint_stored :
      (db : Db p s) (k : RunKey) (cp : Checkpoint s)
      → Table.get ℕ_discrete cp.seq ((insert_checkpoint p s db k cp).checkpoints k) ≡ some cp
  unfolding insert_checkpoint update
  insert_checkpoint_stored db k cp =
      ground (arith, Table.get-insert_self ℕ_discrete cp.seq cp (db.checkpoints k))

  checkpoint-CoversHead :
      (laws : IsSigning s) (st : TlrState s) (now : ℕ) (db : Db p s) (k : RunKey) (seq : ℕ)
      (head : Hash)
      → EndsAt db k seq head
      → CoversHead st (insert_checkpoint p s db k (sign_head p s st.keys k.1 seq head now)) k
  unfolding sign_head sign insert_checkpoint
  checkpoint-CoversHead laws st now db k seq head (r, t, found, over, at, is) =
      let cp = sign_head p s st.keys k.1 seq head now in
      record {
        row = r;
        ended = t;
        cp = cp;
        found = found;
        has_ended = over;
        stored =
            subst
              (λ n.
                Table.get ℕ_discrete n ((insert_checkpoint p s db k cp).checkpoints k) ≡ some cp)
              (sym at) (insert_checkpoint_stored db k cp);
        run_id = refl;
        seq = sym at;
        head = sym is;
        is_signed = verify-sign p s laws k.1 seq head now st.keys.key_id st.keys.key;
      }

  -- No error is answered with 200.
  failure_status : (e : StoreError) → (err p s e).status ≢ 200
  unfolding err
  failure_status Store.not_found h = absurd (omega (arith, h))
  failure_status (Store.conflict m) h = absurd (omega (arith, h))
  failure_status (Store.invalid m) h = absurd (omega (arith, h))
  failure_status (Store.backend m) h = absurd (omega (arith, h))

  publish_head-runs :
      (srv : Server p s) (k : RunKey) (n seq : ℕ) (head : Hash)
      → EndsAt srv.db k seq head
      → EndsAt (publish_head p s srv k n).db k seq head
  publish_head-runs srv k n seq head h =
      subst (λ db. EndsAt db k seq head) (sym (publish_head-db p s srv k n)) h

  repair-CoversHead :
      (laws : IsSigning s) (st : TlrState s) (clock : ℕ → ℕ) (srv : Server p s) (k : RunKey)
      (m : Store.Message)
      → Sqlite.seal p s srv.db (clock 0) k ≡ Store.err (conflict m)
      → (repair p s st clock srv k (conflict m)).0.status ≡ 200
      → CoversHead st (repair p s st clock srv k (conflict m)).1.db k
  unfolding repair repaired_with Sqlite.get_run err
  repair-CoversHead laws st clock srv k m q okay =
      elim (Option-cases (latest_checkpoint p s srv.db k)) [
        | inr (cp, h) ↦ absurd (ground (arith, h))
        | inl h ↦
            let (r, t, found, over) = conflict-EndsAt srv.db (clock 0) k m q in
            let covers =
              checkpoint-CoversHead laws st (clock 1) srv.db k r.head_seq r.head_hash
                (r, t, found, over, refl, refl) in
            elim (write_checkpoint-cases p s st (clock 1) srv k r.head_seq r.head_hash) [
              | inl (e, c) ↦
                  absurd (ground (arith, rw (h, found, c, repair) at okay, failure_status e))
              | inr (srv', c, d) ↦
                  rw (h, found, c, repair) (subst (λ db. CoversHead st db k) (sym d) covers)
            ]
      ]

  complete_checked-CoversHead :
      (laws : IsSigning s) (st : TlrState s) (clock : ℕ → ℕ) (srv : Server p s) (k : RunKey)
      → (complete_checked p s st clock srv k).0.status ≡ 200
      → CoversHead st (complete_checked p s st clock srv k).1.db k
  unfolding complete_checked sealed_with err
  complete_checked-CoversHead laws st clock srv k okay =
      elim (Result-cases (Sqlite.seal p s srv.db (clock 0) k)) [
        | inr (Store.not_found, h) ↦ absurd (ground (arith, h))
        | inr (Store.invalid m, h) ↦ absurd (ground (arith, h))
        | inr (Store.backend m, h) ↦ absurd (ground (arith, h))
        | inr (conflict m, h) ↦
            let okay' : (repair p s st clock srv k (conflict m)).0.status ≡ 200 =
              rw (h, complete_checked) at okay in
            rw (h, complete_checked) (repair-CoversHead laws st clock srv k m h okay')
        | inl ((res, db), h) ↦
            let made =
              counted p s (record srv { db = db })
                (λ m. record m { runs_sealed = incr m.runs_sealed }) in
            let told = publish_head p s made k res.seq in
            let covers = checkpoint-CoversHead laws st (clock 1) told.db k res.seq res.hash (
              publish_head-runs made k res.seq res.seq res.hash
                (seal-EndsAt srv.db db (clock 0) k res h)) in
            elim (write_checkpoint-cases p s st (clock 1) told k res.seq res.hash) [
              | inl (e, c) ↦
                  absurd (ground (arith, rw (h, c, complete_checked) at okay, failure_status e))
              | inr (srv', c, d) ↦
                  rw (h, c, complete_checked) (subst (λ x. CoversHead st x k) (sym d) covers)
            ]
      ]

  -- When `complete_run` answers with success, the run has ended and a signed checkpoint covers its head,
  -- although writing a checkpoint may fail; also when an earlier attempt ended the run and failed to write
  -- it.
  pub complete_run-CoversHead :
      (laws : IsSigning s) (st : TlrState s) (clock : ℕ → ℕ) (srv : Server p s) (id : String)
      (headers : Headers)
      → (complete_run p s st clock srv id headers).0.status ≡ 200
      → (ns : String) × (authorize st headers true ≡ granted ns)
        × CoversHead st (complete_run p s st clock srv id headers).1.db (ns, id)
  unfolding complete_run
  complete_run-CoversHead laws st clock srv id headers okay =
      elim (guarded-cases p s st headers true id (λ r. (r, srv))
        (complete_checked p s st clock srv)) [
          | inl (r, bad, e) ↦ absurd (bad (sym (ap (λ o. o.0.status) e) ∙ okay))
          | inr (ns, g, v, e) ↦ (
            ns,
            g,
            subst (λ o. CoversHead st o.1.db (ns, id)) (sym e)
                (complete_checked-CoversHead laws st clock srv (ns, id)
                  (sym (ap (λ o. o.0.status) e) ∙ okay)),
          )
        ]

  -- A run that ended without a checkpoint at its head is refused, and gets none, when an earlier
  -- checkpoint of it is there: its last events stay without one.
  pub complete_checked_late :
      (st : TlrState s) (clock : ℕ → ℕ) (srv : Server p s) (k : RunKey) (r : RunRow) (t : ℕ)
      (cp : Checkpoint s)
      → find_run p s srv.db k ≡ some r
      → r.ended_ts ≡ some t
      → latest_checkpoint p s srv.db k ≡ some cp
      → complete_checked p s st clock srv k ≡ (err p s (conflict run_is_sealed), srv)
  unfolding complete_checked repair
  complete_checked_late st clock srv k r t cp found over earlier =
      rw (seal_refused p s srv.db (clock 0) k r t found over, complete_checked)
        (rw (earlier, repair) refl)
