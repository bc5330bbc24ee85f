-- ===== src/Record/Growing.antt =====
-- crates/tideline-server/src/tlr/sqlite.rs over later calls: the events of a run, and the rows of other
-- runs.
use tideline.Base.{ℕ, ◌≡◌, ◌≢◌, refl, sym, ap, ◌∙◌, subst, some, List, [], ◌∷◌, ◌++◌, arith, All}
use mathlib.Core.List.{append_assoc, append-nil}
use tideline.Platform.{Platform}
use tideline.Signing.{Signing}
use tideline.Proto.Digest.{Hash}
use tideline.Record.Store.{RunKey, dec_key}
use tideline.Record.Tables.{EventRow, Db, update, find_row, replace_row}
use tideline.Record.Sqlite.{find_run}
use tideline.Record.Redact.{erased}
use tideline.Record.Redact.Keeps.{SameInChain, erased-SameInChain}
use tideline.Record.Checkpoints.{insert_checkpoint}
use tideline.Record.Invariant.{IsSound, update_self, update_ne}
use tideline.Record.Sound.Calls.{opening}
use tideline.Record.History.{Call, step, run, empty, run-IsSound, step-IsSound, empty-IsSound}
use tideline.Record.Moves.{
  Move, Moves, opens, writes, ends, erases, remembers, attests, stays, moves, key_of, step-Moves,
}
use tideline.Record.Kept.{moved_keeps, get_other}

module _ (p : Platform) (s : Signing) where
  -- What a record's rows have for good: the place and the hashes of each.
  unfoldable pub marks : List (EventRow p) → List (ℕ × Hash × Hash)
  marks [] = []
  marks (r ∷ rs) = (r.seq, r.prev_hash, r.hash) ∷ marks rs

  marks-append : (xs ys : List (EventRow p)) → marks (xs ++ ys) ≡ marks xs ++ marks ys
  unfolding marks
  marks-append [] ys = refl
  marks-append (x ∷ xs) ys = ap (λ m. (x.seq, x.prev_hash, x.hash) ∷ m) (marks-append xs ys)

  marks-replace_row :
      (target : ℕ) (rows : List (EventRow p)) (old new : EventRow p)
      → find_row p target rows ≡ some old
      → SameInChain p old new
      → marks (replace_row p target new rows) ≡ marks rows
  unfolding marks find_row replace_row
  marks-replace_row target [] old new h same = refl
  marks-replace_row target (r ∷ rs) old new h same =
      ground (arith, marks-replace_row target rs old new, same.seq, same.prev_hash, same.hash)

  abbrev Extends : RunKey → List (ℕ × Hash × Hash) → Db p s → Type 0
  Extends k ms db = (more : List (ℕ × Hash × Hash)) × (marks (db.events k) ≡ ms ++ more)

  Extends-update :
      (k j : RunKey) (ms more : List (ℕ × Hash × Hash)) (db : Db p s) (rows : List (EventRow p))
      → marks rows ≡ marks (db.events j) ++ more
      → Extends k ms db
      → (more' : List (ℕ × Hash × Hash)) × (marks (update db.events j rows k) ≡ ms ++ more')
  Extends-update k j ms more db rows grown (m, h) = elim (dec_key j k) [
    | yes same ↦
        let at : marks (update db.events j rows j) ≡ (ms ++ m) ++ more =
          ap marks (update_self p db.events j rows)
          ∙ grown
          ∙ ap (λ l. l ++ more) (ap (λ i. marks (db.events i)) same ∙ h) in
        (
          m ++ more,
          subst (λ i. marks (update db.events j rows i) ≡ ms ++ (m ++ more)) same
              (at ∙ append_assoc ms m more),
        )
    | no n ↦ (m, ap marks (update_ne p db.events j k rows n) ∙ h)
  ]

  Move-Extends :
      (k : RunKey) (ms : List (ℕ × Hash × Hash)) {j : RunKey} {a b : Db p s}
      → Move p s j a b
      → Extends k ms a
      → Extends k ms b
  unfolding insert_checkpoint
  Move-Extends k ms {j} {a} (opens now new e x) h =
      Extends-update k j ms _ a _ (marks-append (a.events j) _) h
  Move-Extends k ms {j} {a} (writes now event r x o) h =
      Extends-update k j ms _ a _ (marks-append (a.events j) _) h
  Move-Extends k ms (ends t r x o) h = h
  Move-Extends k ms {j} {a} (erases target fields r old x o f) h =
      Extends-update k j ms [] a _
        (marks-replace_row target (a.events j) old (erased p old fields) f
            (erased-SameInChain p old fields)
          ∙ sym (append-nil (marks (a.events j))))
        h
  Move-Extends k ms (remembers key res e) h = h
  Move-Extends k ms (attests cp) h = h

  -- The record is append-only: whatever calls follow, redactions with them, a run keeps the events that
  -- it has, in their order, each with its place and its two hashes, and new ones stand behind them.
  pub record_grows :
      (before later : List (Call p s)) (k : RunKey)
      → (more : List (ℕ × Hash × Hash)) × (marks
            ((run p s (run p s (empty p s) before) later).events k)
          ≡ marks ((run p s (empty p s) before).events k) ++ more)
  record_grows before later k =
      let db = run p s (empty p s) before in
      let ms = marks (db.events k) in
      moved_keeps p s (Extends k ms) (λ j a b. Move-Extends k ms) db later
        (run-IsSound p s (empty p s) before (empty-IsSound p s)) ([], sym (append-nil ms))

  -- Two databases that hold the same of a run, in all four tables.
  pub record SameRun (k : RunKey) (a b : Db p s) : Type 0 where
    pub row : find_run p s b k ≡ find_run p s a k
    pub events : b.events k ≡ a.events k
    pub idem : b.idem k ≡ a.idem k
    pub checkpoints : b.checkpoints k ≡ a.checkpoints k

  SameRun-trans : {k : RunKey} {a b c : Db p s} → SameRun k a b → SameRun k b c → SameRun k a c
  SameRun-trans x y = record {
    row = y.row ∙ x.row;
    events = y.events ∙ x.events;
    idem = y.idem ∙ x.idem;
    checkpoints = y.checkpoints ∙ x.checkpoints;
  }

  update_other {ℓ} :
      {V : Type ℓ} (m : RunKey → V) (j k : RunKey) (v : V) → j ≢ k → update m j v k ≡ m k
  unfolding update
  update_other m j k v n = ground arith

  Move-SameRun : {j : RunKey} {a b : Db p s} (k : RunKey) → j ≢ k → Move p s j a b → SameRun k a b
  unfolding insert_checkpoint
  Move-SameRun {j} {a} k n (opens now new e x) = record {
    row = get_other p s (opening p s a now j new) j k _ n ∙ get_other p s a j k _ n;
    events = update_ne p a.events j k _ n;
    idem = refl;
    checkpoints = refl;
  }
  Move-SameRun {j} {a} k n (writes now event r x o) = record {
    row = get_other p s a j k _ n;
    events = update_ne p a.events j k _ n;
    idem = refl;
    checkpoints = refl;
  }
  Move-SameRun {j} {a} k n (ends t r x o) = record {
    row = get_other p s a j k _ n;
    events = refl;
    idem = refl;
    checkpoints = refl;
  }
  Move-SameRun {j} {a} k n (erases target fields r old x o f) = record {
    row = refl;
    events = update_ne p a.events j k _ n;
    idem = refl;
    checkpoints = refl;
  }
  Move-SameRun {j} {a} k n (remembers key res e) = record {
    row = refl;
    events = refl;
    idem = update_other a.idem j k _ n;
    checkpoints = refl;
  }
  Move-SameRun {j} {a} k n (attests cp) = record {
    row = refl;
    events = refl;
    idem = refl;
    checkpoints = update_other a.checkpoints j k _ n;
  }

  pub Moves-SameRun :
      {j : RunKey} {a b : Db p s} (k : RunKey) → j ≢ k → Moves p s j a b → SameRun k a b
  Moves-SameRun k n stays = record { row = refl; events = refl; idem = refl; checkpoints = refl }
  Moves-SameRun k n (moves m ms) = SameRun-trans (Move-SameRun k n m) (Moves-SameRun k n ms)

  run-SameRun :
      (db : Db p s) (cs : List (Call p s)) (k : RunKey)
      → IsSound p s db
      → All (λ c. key_of p s c ≢ k) cs
      → SameRun k db (run p s db cs)
  unfolding run
  run-SameRun db [] k all h = record { row = refl; events = refl; idem = refl; checkpoints = refl }
  run-SameRun db (c ∷ cs) k all h =
      SameRun-trans (Moves-SameRun k h.0 (step-Moves p s db c all))
        (run-SameRun (step p s db c) cs k (step-IsSound p s db c all) h.1)

  -- Runs are apart: calls that name other runs, in the same namespace or another, leave a run as it
  -- was, its row, its events, its idempotency keys and its checkpoints.
  pub runs_apart :
      (before later : List (Call p s)) (k : RunKey)
      → All (λ c. key_of p s c ≢ k) later
      → SameRun k (run p s (empty p s) before) (run p s (run p s (empty p s) before) later)
  runs_apart before later k =
      run-SameRun (run p s (empty p s) before) later k
        (run-IsSound p s (empty p s) before (empty-IsSound p s))
