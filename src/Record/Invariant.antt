-- ===== src/Record/Invariant.antt =====
-- The invariant of the store in crates/tideline-server/src/tlr/sqlite.rs: each run's rows are a sound
-- chain whose head is the one that the run's row names.
use tideline.Base.{
  ℕ, suc, ◌+◌, ◌≤◌, ◌≡◌, ◌≢◌, refl, sym, subst, false, ite, Option, none, some, List, [], ◌∷◌, ◌++◌,
  map, length, length-append, length-map, arith,
}
use tideline.Base.Table
use tideline.Base.Table.{Table, get-insert}
use mathlib.Core.List.{map-append}
use tideline.Platform.{Platform}
use tideline.Signing.{Signing}
use tideline.Proto.Kind
use tideline.Proto.Kind.{EventKind, run_started, run_finished, parse_iff}
use tideline.Proto.Digest.{Hash, zero_hash}
use tideline.Proto.Event.{RunEvent, core, metadata_raw}
use tideline.Proto.Chain.Linked.{Linked, IsChain, head_after, append-Linked}
use tideline.Record.Store.{RunKey, dec_key, NewEvent}
use tideline.Record.Tables.{RunRow, EventRow, Db, update, row_to_event, has_seq}
use tideline.Record.Sqlite.{next_row}

module _ (p : Platform) where
  abbrev pub record_of : List (EventRow p) → List (RunEvent p)
  record_of rows = map (row_to_event p) rows

  abbrev pub last_kind : List (EventRow p) → Option EventKind
  last_kind [] = none
  last_kind (r ∷ []) = some (row_to_event p r).kind
  last_kind (r ∷ q ∷ rs) = last_kind (q ∷ rs)

  -- A run with an end has `run_finished` as its last event.
  abbrev pub EndsSealed : Option ℕ → List (EventRow p) → Type 0
  EndsSealed none rows = Unit
  EndsSealed (some t) rows = last_kind rows ≡ some run_finished

  pub record IsRecord (r : RunRow) (rows : List (EventRow p)) : Type 0 where
    pub chain : IsChain p (record_of rows)
    pub head_seq : r.head_seq + 1 ≡ length rows
    pub head_hash : r.head_hash ≡ head_after p zero_hash (record_of rows)
    pub ended : EndsSealed r.ended_ts rows

  abbrev pub RunOk : Option RunRow → List (EventRow p) → Type 0
  RunOk none rows = rows ≡ []
  RunOk (some r) rows = IsRecord r rows

  abbrev pub RunsOk : Table RunKey RunRow → (RunKey → List (EventRow p)) → Type 0
  RunsOk runs events = (k : RunKey) → RunOk (Table.get dec_key k runs) (events k)

  RunOk-ite :
      {A : Type 0} (r : RunRow) (o : Option RunRow) (rows : List (EventRow p)) (d : Dec A)
      → (A → IsRecord r rows)
      → (¬ A → RunOk o rows)
      → RunOk (ite d (some r) o) rows
  RunOk-ite r o rows (yes e) new old = new e
  RunOk-ite r o rows (no n) new old = old n

  -- To write one run's row it is enough that the other runs are sound.
  pub RunsOk-insert :
      (runs : Table RunKey RunRow) (events : RunKey → List (EventRow p)) (k : RunKey) (r : RunRow)
      → ((j : RunKey) → k ≢ j → RunOk (Table.get dec_key j runs) (events j))
      → IsRecord r (events k)
      → RunsOk (Table.insert dec_key k r runs) events
  RunsOk-insert runs events k r others new j = rw (get-insert dec_key k j r runs) (
      RunOk-ite r _ (events j) (dec_key k j) (λ e. subst (λ i. IsRecord r (events i)) e new)
        (others j))

  pub update_self :
      (events : RunKey → List (EventRow p)) (k : RunKey) (rows : List (EventRow p))
      → update events k rows k ≡ rows
  unfolding update
  update_self events k rows = ground arith

  pub update_ne :
      (events : RunKey → List (EventRow p)) (k j : RunKey) (rows : List (EventRow p))
      → k ≢ j
      → update events k rows j ≡ events j
  unfolding update
  update_ne events k j rows n = ground arith

  pub RunsOk-update :
      (runs : Table RunKey RunRow) (events : RunKey → List (EventRow p)) (k : RunKey) (r : RunRow)
      (rows : List (EventRow p))
      → ((j : RunKey) → k ≢ j → RunOk (Table.get dec_key j runs) (events j))
      → IsRecord r rows
      → RunsOk (Table.insert dec_key k r runs) (update events k rows)
  RunsOk-update runs events k r rows others new =
      RunsOk-insert runs (update events k rows) k r
        (λ j n.
          subst (RunOk (Table.get dec_key j runs)) (sym (update_ne events k j rows n)) (others j n))
        (subst (IsRecord r) (sym (update_self events k rows)) new)

  pub has_seq_above :
      (i n : ℕ) (prev : Hash) (rows : List (EventRow p))
      → Linked p i prev (record_of rows)
      → i + length rows ≤ n
      → has_seq p n rows ≡ false
  unfolding has_seq row_to_event
  has_seq_above i n prev [] h le = refl
  has_seq_above i n prev (r ∷ rs) h le =
      ground (arith, has_seq_above (suc i) n r.hash rs h.3 (omega arith))

module _ (p : Platform) (s : Signing) where
  abbrev pub IsSound : Db p s → Type 0
  IsSound db = RunsOk p db.runs db.events

  pub next_row_fits :
      (head_seq : ℕ) (head_hash : Hash) (now : ℕ) (event : NewEvent p)
      → Linked p
          (head_seq + 1)
          head_hash
          (row_to_event p (next_row p s head_seq head_hash now event) ∷ [])
  unfolding next_row row_to_event core metadata_raw
  next_row_fits head_seq head_hash now event =
      (refl, refl, rw ((parse_iff (Kind.as_str event.kind) event.kind).1 refl), tt)

  pub last_kind-append :
      (rows : List (EventRow p)) (q : EventRow p)
      → last_kind p (rows ++ q ∷ []) ≡ some (row_to_event p q).kind
  last_kind-append [] q = refl
  last_kind-append (r ∷ []) q = refl
  last_kind-append (r ∷ r' ∷ rs) q = last_kind-append (r' ∷ rs) q

  head_after-append :
      (prev : Hash) (es : List (RunEvent p)) (e : RunEvent p)
      → head_after p prev (es ++ e ∷ []) ≡ e.hash
  head_after-append prev [] e = refl
  head_after-append prev (x ∷ es) e = head_after-append x.hash es e

  -- A record and a row that fits behind its head are a record with the row as its head.
  pub append-IsRecord :
      (r : RunRow) (rows : List (EventRow p)) (q : EventRow p)
      → IsRecord p r rows
      → Linked p (r.head_seq + 1) r.head_hash (row_to_event p q ∷ [])
      → q.seq ≡ r.head_seq + 1
      → r.ended_ts ≡ none
      → IsRecord p (record r { head_seq = q.seq; head_hash = q.hash }) (rows ++ q ∷ [])
  unfolding row_to_event
  append-IsRecord r [] q h fits e o = absurd h.chain
  append-IsRecord r (x ∷ xs) q h fits e o = record {
    chain = rw (map-append (row_to_event p)) (
      h.chain.0,
      append-Linked p 0 zero_hash (record_of p (x ∷ xs)) (row_to_event p q ∷ []) h.chain.1 (
          subst
            (λ n.
              Linked p n (head_after p zero_hash (record_of p (x ∷ xs))) (row_to_event p q ∷ []))
            (omega (arith, h.head_seq, length-map (row_to_event p) xs))
            (subst (λ g. Linked p (r.head_seq + 1) g (row_to_event p q ∷ [])) h.head_hash fits)),
    );
    head_seq = omega (arith, length-append (x ∷ xs) (q ∷ []), h.head_seq);
    head_hash =
        rw (map-append (row_to_event p))
          (sym (head_after-append zero_hash (record_of p (x ∷ xs)) (row_to_event p q)));
    ended = subst (λ t. EndsSealed p t ((x ∷ xs) ++ q ∷ [])) (sym o) tt;
  }
