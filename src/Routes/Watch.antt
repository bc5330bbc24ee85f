-- ===== src/Routes/Watch.antt =====
-- `watch` of crates/tideline-server/src/tlr/routes.rs: the stream of a record, history first. The record is
-- read again and again while others write to it, so a read is indexed by its number.
use tideline.Base.{
  ℕ, zero, suc, ◌+◌, ◌%◌, String, Bool, true, false, Option, none, some, List, [], ◌∷◌, ◌++◌, map,
  length, last_or, ltb, if◌then◌else◌,
}
use tideline.Base.Bytes.{u64_mod}
use tideline.Platform.{Platform}
use tideline.Proto.Event.{RunEvent}
use tideline.Stream
use tideline.Stream.{Signal, token, gap, error}

-- What the watcher is sent: an event, or how the stream ends.
pub data Sent (p : Platform) : Type 0 where
  event : RunEvent p → Sent p
  done : Sent p
  stream_error : String → Sent p

module _ (p : Platform) where
  -- `store.events(ns, id, next, 500)` as the `i`th read gives it.
  abbrev pub Reader : Type 0
  Reader = (i next : ℕ) → Option (List (RunEvent p))

  pub record Drained : Type 0 where
    pub reads : ℕ
    pub next : ℕ
    pub out : List (RunEvent p)
    pub failed : Bool

  unfoldable pub next_after : ℕ → List (RunEvent p) → ℕ
  next_after next [] = next
  next_after next (e ∷ es) = ((last_or e es).seq + 1) % u64_mod

  -- The inner loop, which drains what the record holds; `none` when the fuel is spent.
  unfoldable pub drain : Reader → ℕ → ℕ → ℕ → List (RunEvent p) → Option Drained
  drain read zero i next out = none
  drain read (suc fuel) i next out = elim (read i next) [
    | none ↦ some (record { reads = suc i; next = next; out = out; failed = true })
    | some batch ↦
        let rest = drain read fuel (suc i) (next_after next batch) (out ++ batch) in
        if ltb (length batch) 500
        then some (record {
          reads = suc i;
          next = next_after next batch;
          out = out ++ batch;
          failed = false;
        })
        else rest
  ]

  abbrev sent : List (RunEvent p) → List (Sent p)
  sent out = map event out

  -- The last turn of the outer loop, with `finished` set.
  unfoldable pub finish : Reader → ℕ → ℕ → ℕ → List (RunEvent p) → Option (List (Sent p))
  finish read fuel i next out = elim (drain read fuel i next out) [
    | none ↦ none
    | some d ↦ some (if d.failed then sent d.out else sent d.out ++ done ∷ [])
  ]

  -- The outer loop over the signals of the spine.
  unfoldable pub watch_from :
      Reader → ℕ → List Signal → ℕ → ℕ → List (RunEvent p) → Option (List (Sent p))
  watch_from read fuel [] i next out = elim (drain read fuel i next out) [
    | none ↦ none
    | some d ↦ if d.failed then some (sent d.out) else finish read fuel d.reads d.next d.out
  ]
  watch_from read fuel (signal ∷ signals) i next out = elim (drain read fuel i next out) [
    | none ↦ none
    | some d ↦
        let rest = watch_from read fuel signals d.reads d.next d.out in
        let end = finish read fuel d.reads d.next d.out in
        if d.failed then some (sent d.out) else elim signal [
          | token t ↦ rest
          | gap ↦ rest
          | error m ↦ some (sent d.out ++ stream_error m ∷ [])
          | Stream.done ↦ end
        ]
  ]

  unfoldable pub watch : Reader → ℕ → List Signal → ℕ → Option (List (Sent p))
  watch read fuel signals from = watch_from read fuel signals 0 from []
