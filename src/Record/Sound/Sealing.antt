-- ===== src/Record/Sound/Sealing.antt =====
-- `seal` of crates/tideline-server/src/tlr/sqlite.rs, and the invariant.
use tideline.Base.{
  ℕ, ◌+◌, ◌≡◌, inl, inr, refl, sym, ap, ◌∙◌, subst, none, some, [], ◌∷◌, ◌++◌, arith, Option-cases,
}
use tideline.Base.Json.{object, field, number, no_fields}
use tideline.Base.Table
use tideline.Platform.{Platform}
use tideline.Signing.{Signing}
use tideline.Proto.Kind
use tideline.Proto.Kind.{EventKind, message, run_finished, parse_iff}
use tideline.Record.Store.{
  RunKey, dec_key, NewEvent, AppendResult, StoreResult, ok, err, conflict, not_found, run_is_sealed,
  ◌>>=◌,
}
use tideline.Record.Tables.{RunRow, Db, row_to_event}
use tideline.Record.Sqlite.{
  find_run, next_row, head_of, head_of_row, update_run, append_in_tx, seal, structural,
}
use tideline.Record.Invariant.{IsSound, last_kind, RunsOk-insert, last_kind-append, update_self}
use tideline.Record.Sound.{
  Leaves, Appending, missing, closed, clash, written, append_in_tx-Appending, appended,
  found-IsRecord, appended-IsSound, head_open,
}

module _ (p : Platform) (s : Signing) where
  pub update_run_found :
      (db : Db p s) (k : RunKey) (change : RunRow → RunRow) (r : RunRow)
      → find_run p s db k ≡ some r
      → update_run p s db k change ≡ record db { runs = Table.insert dec_key k (change r) db.runs }
  unfolding update_run
  update_run_found db k change r h = rw (h, update_run)

  unfoldable pub sealing : ℕ → NewEvent p
  sealing head_seq =
      structural p s run_finished (object (field "event_count" (number (head_seq + 2)) no_fields))

  unfoldable pub seal_result : RunKey → AppendResult × Db p s → AppendResult × Db p s
  seal_result k done =
      (done.0, update_run p s done.1 k (λ r. record r { ended_ts = some done.0.ts }))

  pub seal_as_append :
      (db : Db p s) (now : ℕ) (k : RunKey) (r : RunRow)
      → find_run p s db k ≡ some r
      → r.ended_ts ≡ none
      → seal p s db now k
        ≡ (append_in_tx p s db now k (sealing r.head_seq) >>= λ done. ok (seal_result k done))
  unfolding seal sealing seal_result
  seal_as_append db now k r h e = rw (head_open p s db k r h e, seal)

  sealing_kind :
      (head_seq : ℕ) (r : RunRow) (now : ℕ)
      → (row_to_event p (next_row p s r.head_seq r.head_hash now (sealing head_seq))).kind
        ≡ run_finished
  unfolding next_row row_to_event sealing
  sealing_kind head_seq r now = rw ((parse_iff (Kind.as_str run_finished) run_finished).1 refl)

  seal_result-IsSound :
      (db : Db p s) (now : ℕ) (k : RunKey) (r : RunRow) (n t : ℕ)
      → IsSound p s db
      → find_run p s db k ≡ some r
      → r.ended_ts ≡ none
      → IsSound p s (
          update_run p s
            (appended p s db k r (next_row p s r.head_seq r.head_hash now (sealing n)))
            k
            (λ r. record r { ended_ts = some t }))
  seal_result-IsSound db now k r n t all h e =
      let row = next_row p s r.head_seq r.head_hash now (sealing n) in
      let done = appended p s db k r row in
      let r1 : RunRow = record r { head_seq = row.seq; head_hash = row.hash } in
      let all1 = appended-IsSound p s db now k (sealing n) r all h e in
      let found1 = Table.get-insert_self dec_key k r1 db.runs in
      let old = found-IsRecord p s done k r1 all1 found1 in
      let last : last_kind p (done.events k) ≡ some run_finished =
        ap (last_kind p) (update_self p db.events k (db.events k ++ row ∷ []))
        ∙ last_kind-append p s (db.events k) row
        ∙ ap some (sealing_kind n r now) in
      subst (IsSound p s)
        (sym (update_run_found done k (λ r. record r { ended_ts = some t }) r1 found1))
        (RunsOk-insert p done.runs done.events k (record r1 { ended_ts = some t }) (λ j _. all1 j)
          (record {
            chain = old.chain;
            head_seq = old.head_seq;
            head_hash = old.head_hash;
            ended = last;
          }))

  pub seal_refused :
      (db : Db p s) (now : ℕ) (k : RunKey) (r : RunRow) (t : ℕ)
      → find_run p s db k ≡ some r
      → r.ended_ts ≡ some t
      → seal p s db now k ≡ err (conflict run_is_sealed)
  unfolding seal head_of head_of_row
  seal_refused db now k r t h e = ground arith

  pub seal_missing :
      (db : Db p s) (now : ℕ) (k : RunKey)
      → find_run p s db k ≡ none
      → seal p s db now k ≡ err not_found
  unfolding seal head_of head_of_row
  seal_missing db now k h = ground arith

  seal_written :
      {db : Db p s} {now : ℕ} {k : RunKey} {r : RunRow} {x : StoreResult (AppendResult × Db p s)}
      → IsSound p s db
      → find_run p s db k ≡ some r
      → r.ended_ts ≡ none
      → Appending p s db now k (sealing r.head_seq) x
      → Leaves p s (IsSound p s) (x >>= λ done. ok (seal_result k done))
  unfolding seal_result next_row
  seal_written all h e (missing a) = tt
  seal_written all h e (closed q t a b) = tt
  seal_written all h e (clash q a b) = tt
  seal_written {db} {now} {k} {r} all h e (written q a b) =
      seal_result-IsSound db now k q r.head_seq now all a b

  -- Sealing a run keeps every record of the store sound.
  pub seal-IsSound :
      (db : Db p s) (now : ℕ) (k : RunKey)
      → IsSound p s db
      → Leaves p s (IsSound p s) (seal p s db now k)
  seal-IsSound db now k all = elim (Option-cases (find_run p s db k)) [
    | inl h ↦ subst (Leaves p s (IsSound p s)) (sym (seal_missing db now k h)) tt
    | inr (r, h) ↦ elim (Option-cases r.ended_ts) [
      | inr (t, e) ↦ subst (Leaves p s (IsSound p s)) (sym (seal_refused db now k r t h e)) tt
      | inl e ↦
          subst (Leaves p s (IsSound p s)) (sym (seal_as_append db now k r h e))
            (seal_written all h e (append_in_tx-Appending p s db now k (sealing r.head_seq)))
    ]
  ]
