-- ===== src/Record/Kept.antt =====
-- crates/tideline-server/src/tlr/sqlite.rs over later calls: the results of idempotency keys, and the
-- record of a sealed run.
use tideline.Base.{
  ℕ, ◌≡◌, ◌≢◌, refl, sym, ◌∙◌, subst, String, none, some, List, [], ◌∷◌, arith, dec_text,
  Option-cases, inl, inr,
}
use tideline.Base.Table
use tideline.Platform.{Platform}
use tideline.Signing.{Signing}
use tideline.Record.Store.{RunKey, dec_key, NewEvent, AppendResult, StoreResult, ok, err, ◌>>=◌}
use tideline.Record.Tables.{RunRow, EventRow, Db, update}
use tideline.Record.Sqlite.{find_run, append_in_tx, append, prior, remember}
use tideline.Record.Checkpoints.{insert_checkpoint}
use tideline.Record.Invariant.{IsSound, update_ne}
use tideline.Record.Sound.{Leaves}
use tideline.Record.Sound.Calls.{append-IsSound, append_repeated, append_new, opening}
use tideline.Record.History.{Call, step, run, empty, run-IsSound, step-IsSound, empty-IsSound}
use tideline.Record.Moves.{
  Move, Moves, opens, writes, ends, erases, remembers, attests, stays, moves, key_of, step-Moves,
}

module _ (p : Platform) (s : Signing) where
  pub get_other :
      (db : Db p s) (j k : RunKey) (r : RunRow)
      → j ≢ k
      → Table.get dec_key k (Table.insert dec_key j r db.runs) ≡ find_run p s db k
  get_other db j k r n = Table.get-insert_ne dec_key j k r db.runs n

  -- A property of databases that each call keeps is kept by any calls.
  run_keeps :
      (P : Db p s → Type 0)
      → ((db : Db p s) (c : Call p s) → IsSound p s db → P db → P (step p s db c))
      → (db : Db p s) (cs : List (Call p s)) → IsSound p s db
      → P db
      → P (run p s db cs)
  unfolding run
  run_keeps P keep db [] all h = h
  run_keeps P keep db (c ∷ cs) all h =
      run_keeps P keep (step p s db c) cs (step-IsSound p s db c all) (keep db c all h)

  pub Moves_keep :
      {j : RunKey} {db db1 : Db p s} (P : Db p s → Type 0)
      → ((a b : Db p s) → Move p s j a b → P a → P b)
      → Moves p s j db db1
      → P db
      → P db1
  Moves_keep P keep stays h = h
  Moves_keep P keep (moves m ms) h = Moves_keep P keep ms (keep _ _ m h)

  pub moved_keeps :
      (P : Db p s → Type 0)
      → ((j : RunKey) (a b : Db p s) → Move p s j a b → P a → P b)
      → (db : Db p s) (cs : List (Call p s)) → IsSound p s db
      → P db
      → P (run p s db cs)
  moved_keeps P keep =
      run_keeps P (λ db c all h. Moves_keep P (keep (key_of p s c)) (step-Moves p s db c all) h)

  -- The result that a key has.
  abbrev Has : RunKey → String → AppendResult → Db p s → Type 0
  Has k key res db = Table.get dec_text key (db.idem k) ≡ some res

  remembers-Has :
      (db : Db p s) (j k : RunKey) (key key' : String) (res res' : AppendResult)
      → Table.get dec_text key' (db.idem j) ≡ none
      → Has k key res db
      → Table.get dec_text key (update db.idem j (Table.insert dec_text key' res' (db.idem j)) k)
        ≡ some res
  unfolding update
  remembers-Has db j k key key' res res' fresh h =
      ground (arith, Table.get-insert dec_text key' key res' (db.idem j))

  Move-Has :
      (k : RunKey) (key : String) (res : AppendResult) {j : RunKey} {a b : Db p s}
      → Move p s j a b
      → Has k key res a
      → Has k key res b
  unfolding insert_checkpoint
  Move-Has k key res (opens now new e x) h = h
  Move-Has k key res (writes now event r x o) h = h
  Move-Has k key res (ends t r x o) h = h
  Move-Has k key res (erases target fields r old x o f) h = h
  Move-Has k key res {j} {a} (remembers key' res' e) h = remembers-Has a j k key key' res res' e h
  Move-Has k key res (attests cp) h = h

  abbrev Remembers : RunKey → String → StoreResult (AppendResult × Db p s) → Type 0
  Remembers k key (ok (res, db)) = Has k key res db
  Remembers k key (err e) = Unit

  remember-Remembers :
      (k : RunKey) (key : String) (x : StoreResult (AppendResult × Db p s))
      → Remembers k key (x >>= λ done. ok (remember p s k (some key) done))
  unfolding remember update
  remember-Remembers k key (ok (res, db)) =
      ground (arith, Table.get-insert_self dec_text key res (db.idem k))
  remember-Remembers k key (err e) = tt

  append-Remembers :
      (db : Db p s) (now : ℕ) (k : RunKey) (event : NewEvent p) (key : String)
      → Remembers k key (append p s db now k event (some key))
  append-Remembers db now k event key = elim (Option-cases (prior p s db k (some key))) [
    | inr (res, h) ↦
        subst (Remembers k key) (sym (append_repeated p s db now k event (some key) res h))
          (unfold prior in h)
    | inl h ↦
        subst (Remembers k key) (sym (append_new p s db now k event (some key) h))
          (remember-Remembers k key (append_in_tx p s db now k event))
  ]

  -- A key is used once: when an append under a key has returned a result, any later append to the run
  -- under that key, whatever its event and whatever calls came between, returns the same result and
  -- writes nothing.
  pub append_once :
      (before between : List (Call p s)) (db1 : Db p s) (now later : ℕ) (k : RunKey)
      (event event' : NewEvent p) (key : String) (res : AppendResult)
      → append p s (run p s (empty p s) before) now k event (some key) ≡ ok (res, db1)
      → append p s (run p s db1 between) later k event' (some key) ≡ ok (res, run p s db1 between)
  unfolding prior
  append_once before between db1 now later k event event' key res h =
      let db = run p s (empty p s) before in
      let all = run-IsSound p s (empty p s) before (empty-IsSound p s) in
      let all1 : IsSound p s db1 =
        subst (Leaves p s (IsSound p s)) h (append-IsSound p s db now k event (some key) all) in
      append_repeated p s (run p s db1 between) later k event' (some key) res (
        moved_keeps (Has k key res) (λ j a b. Move-Has k key res) db1 between all1
          (subst (Remembers k key) h (append-Remembers db now k event key)))

  -- A run with an end, and its rows.
  abbrev Closed : RunKey → RunRow → ℕ → List (EventRow p) → Db p s → Type 0
  Closed k r t rows db = (find_run p s db k ≡ some r) × (db.events k ≡ rows) × (r.ended_ts ≡ some t)

  other_than_closed :
      (db : Db p s) (j k : RunKey) (r q : RunRow) (t : ℕ)
      → find_run p s db j ≡ some q
      → q.ended_ts ≡ none
      → find_run p s db k ≡ some r
      → r.ended_ts ≡ some t
      → j ≢ k
  other_than_closed db j k r q t x o h e same =
      let h' : find_run p s db j ≡ some r = subst (λ i. find_run p s db i ≡ some r) (sym same) h in
      cc

  other_than_new :
      (db : Db p s) (j k : RunKey) (r : RunRow)
      → find_run p s db j ≡ none
      → find_run p s db k ≡ some r
      → j ≢ k
  other_than_new db j k r x h same =
      let h' : find_run p s db j ≡ some r = subst (λ i. find_run p s db i ≡ some r) (sym same) h in
      cc

  Move-Closed :
      (k : RunKey) (r : RunRow) (t : ℕ) (rows : List (EventRow p)) {j : RunKey} {a b : Db p s}
      → Move p s j a b
      → Closed k r t rows a
      → Closed k r t rows b
  unfolding insert_checkpoint
  Move-Closed k r t rows {j} {a} (opens now new e x) (h, ev, c) =
      let n = other_than_new a j k r e h in
      (
        get_other (opening p s a now j new) j k _ n ∙ get_other a j k _ n ∙ h,
        update_ne p a.events j k _ n ∙ ev,
        c,
      )
  Move-Closed k r t rows {j} {a} (writes now event q x o) (h, ev, c) =
      let n = other_than_closed a j k r q t x o h c in
      (get_other a j k _ n ∙ h, update_ne p a.events j k _ n ∙ ev, c)
  Move-Closed k r t rows {j} {a} (ends t' q x o) (h, ev, c) =
      let n = other_than_closed a j k r q t x o h c in (get_other a j k _ n ∙ h, ev, c)
  Move-Closed k r t rows {j} {a} (erases target fields q old x o f) (h, ev, c) =
      let n = other_than_closed a j k r q t x o h c in (h, update_ne p a.events j k _ n ∙ ev, c)
  Move-Closed k r t rows (remembers key res e) h = h
  Move-Closed k r t rows (attests cp) h = h

  -- A sealed run is frozen: whatever calls follow, its row and its event rows stay the same.
  pub sealed_stays :
      (before later : List (Call p s)) (k : RunKey) (r : RunRow) (t : ℕ)
      → find_run p s (run p s (empty p s) before) k ≡ some r
      → r.ended_ts ≡ some t
      → (find_run p s (run p s (run p s (empty p s) before) later) k ≡ some r)
        × ((run p s (run p s (empty p s) before) later).events k
            ≡ (run p s (empty p s) before).events k)
  sealed_stays before later k r t h e =
      let db = run p s (empty p s) before in
      let (a, b, _) =
        moved_keeps (Closed k r t (db.events k)) (λ j a b. Move-Closed k r t (db.events k)) db later
          (run-IsSound p s (empty p s) before (empty-IsSound p s)) (h, refl, e) in
      (a, b)
