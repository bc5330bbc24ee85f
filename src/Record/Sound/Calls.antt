-- ===== src/Record/Sound/Calls.antt =====
-- `create_run` and `append` of crates/tideline-server/src/tlr/sqlite.rs, and the invariant.
use tideline.Base.{
  ℕ, ◌≡◌, inl, inr, refl, sym, subst, String, Option, none, some, [], ◌∷◌, ◌++◌, arith,
  Option-cases,
}
use tideline.Base.Table
use tideline.Base.Table.{Table, get-insert}
use tideline.Platform.{Platform}
use tideline.Signing.{Signing}
use tideline.Proto.Kind
use tideline.Proto.Kind.{EventKind, message, run_started, run_finished, parse_iff}
use tideline.Proto.Canon.{unwrap_or}
use tideline.Proto.Event.{core, metadata_raw}
use tideline.Record.Store.{
  RunKey, dec_key, NewEvent, NewRun, AppendResult, StoreResult, ok, err, conflict, run_exists,
  ◌>>=◌,
}
use tideline.Record.Tables.{RunRow, Db, to_envelope, row_to_event, has_seq}
use tideline.Record.Sqlite.{
  find_run, first_row, run_row, append_in_tx, create_run, append, remember, prior,
}
use tideline.Record.Invariant.{IsSound, IsRecord, EndsSealed, RunOk, RunsOk-update}
use tideline.Record.Sound.{Leaves, append_in_tx-IsSound, appended, write_event_fresh}

module _ (p : Platform) (s : Signing) where
  first-IsRecord :
      (now : ℕ) (new : NewRun) (r : RunRow)
      → r.head_seq ≡ 0
      → r.head_hash ≡ (first_row p s now new).hash
      → r.ended_ts ≡ none
      → IsRecord p r (first_row p s now new ∷ [])
  unfolding first_row row_to_event core metadata_raw
  first-IsRecord now new r a b c =
      let kind : unwrap_or message (Kind.parse (Kind.as_str run_started)) ≡ run_started =
        rw ((parse_iff (Kind.as_str run_started) run_started).1 refl) in
      record {
        chain = (kind, (refl, refl, rw kind, tt));
        head_seq = omega arith;
        head_hash = b;
        ended = subst (λ t. EndsSealed p t (first_row p s now new ∷ [])) (sym c) tt;
      }

  -- The database while a run is opened, and after it.
  abbrev pub opening : Db p s → ℕ → RunKey → NewRun → Db p s
  opening db now k new = record db {
    runs = Table.insert dec_key k (run_row p s now new (first_row p s now new).hash) db.runs;
  }

  abbrev pub opened : Db p s → ℕ → RunKey → NewRun → Db p s
  opened db now k new =
      appended p s (opening db now k new) k (run_row p s now new (first_row p s now new).hash)
        (first_row p s now new)

  pub create_run_taken :
      (db : Db p s) (now : ℕ) (ns : String) (new : NewRun) (r : RunRow)
      → find_run p s db (ns, new.run_id) ≡ some r
      → create_run p s db now ns new ≡ err (conflict (run_exists new.run_id))
  unfolding create_run
  create_run_taken db now ns new r h = ground arith

  pub create_run_free :
      (db : Db p s) (now : ℕ) (ns : String) (new : NewRun)
      → find_run p s db (ns, new.run_id) ≡ none
      → db.events (ns, new.run_id) ≡ []
      → create_run p s db now ns new
        ≡ ok (
          to_envelope (ns, new.run_id) (run_row p s now new (first_row p s now new).hash),
          opened db now (ns, new.run_id) new,
        )
  unfolding create_run
  create_run_free db now ns new h e =
      let k : RunKey = (ns, new.run_id) in
      let row = run_row p s now new (first_row p s now new).hash in
      rw (h, create_run)
        (rw
          (write_event_fresh p s (opening db now k new) k row (first_row p s now new)
            (Table.get-insert_self dec_key k row db.runs) (unfold has_seq in rw e))
          refl)

  opened-IsSound :
      (db : Db p s) (now : ℕ) (k : RunKey) (new : NewRun)
      → IsSound p s db
      → db.events k ≡ []
      → IsSound p s (opened db now k new)
  unfolding first_row
  opened-IsSound db now k new all e =
      let first = first_row p s now new in
      let row = run_row p s now new first.hash in
      RunsOk-update p (opening db now k new).runs db.events k row (db.events k ++ first ∷ [])
        (λ j n.
          subst (λ o. RunOk p o (db.events j)) (sym (Table.get-insert_ne dec_key k j row db.runs n))
            (all j))
        (subst (λ rows. IsRecord p row (rows ++ first ∷ [])) (sym e)
          (first-IsRecord now new row refl refl refl))

  -- Opening a run keeps every record of the store sound.
  pub create_run-IsSound :
      (db : Db p s) (now : ℕ) (ns : String) (new : NewRun)
      → IsSound p s db
      → Leaves p s (IsSound p s) (create_run p s db now ns new)
  create_run-IsSound db now ns new all = elim (Option-cases (find_run p s db (ns, new.run_id))) [
    | inr (r, h) ↦ subst (Leaves p s (IsSound p s)) (sym (create_run_taken db now ns new r h)) tt
    | inl h ↦
        let e : db.events (ns, new.run_id) ≡ [] =
          subst (λ o. RunOk p o (db.events (ns, new.run_id))) h (all (ns, new.run_id)) in
        subst (Leaves p s (IsSound p s)) (sym (create_run_free db now ns new h e))
          (opened-IsSound db now (ns, new.run_id) new all e)
  ]

  remember-IsSound :
      (k : RunKey) (idem : Option String) (done : AppendResult × Db p s)
      → IsSound p s done.1
      → IsSound p s (remember p s k idem done).1
  unfolding remember
  remember-IsSound k none (res, db) all = all
  remember-IsSound k (some key) (res, db) all = all

  Leaves-map :
      {A B : Type 0} (x : StoreResult (A × Db p s)) (g : A × Db p s → B × Db p s)
      → Leaves p s (IsSound p s) x
      → ((done : A × Db p s) → IsSound p s done.1 → IsSound p s (g done).1)
      → Leaves p s (IsSound p s) (x >>= λ done. ok (g done))
  Leaves-map (ok (a, db)) g h keep = keep (a, db) h
  Leaves-map (err e) g h keep = tt

  pub append_repeated :
      (db : Db p s) (now : ℕ) (k : RunKey) (event : NewEvent p) (idem : Option String)
      (res : AppendResult)
      → prior p s db k idem ≡ some res
      → append p s db now k event idem ≡ ok (res, db)
  unfolding append
  append_repeated db now k event idem res h = rw (h, append)

  pub append_new :
      (db : Db p s) (now : ℕ) (k : RunKey) (event : NewEvent p) (idem : Option String)
      → prior p s db k idem ≡ none
      → append p s db now k event idem
        ≡ (append_in_tx p s db now k event >>= λ done. ok (remember p s k idem done))
  unfolding append
  append_new db now k event idem h = rw (h, append)

  -- Appending, with an idempotency key or without, keeps every record of the store sound.
  pub append-IsSound :
      (db : Db p s) (now : ℕ) (k : RunKey) (event : NewEvent p) (idem : Option String)
      → IsSound p s db
      → Leaves p s (IsSound p s) (append p s db now k event idem)
  append-IsSound db now k event idem all = elim (Option-cases (prior p s db k idem)) [
    | inr (res, h) ↦
        subst (Leaves p s (IsSound p s)) (sym (append_repeated db now k event idem res h)) all
    | inl h ↦ subst (Leaves p s (IsSound p s)) (sym (append_new db now k event idem h)) (
        Leaves-map (append_in_tx p s db now k event) (remember p s k idem)
          (append_in_tx-IsSound p s db now k event all) (remember-IsSound k idem))
  ]
