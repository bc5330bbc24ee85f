-- ===== src/Tests/Client.antt =====
-- The properties of the client at small records and streams.
use tideline.Base.{
  ℕ, ◌≡◌, refl, String, false, true, none, some, Option, List, [], ◌∷◌, ◌++◌, length, take, drop,
  zero, map, ℕ_discrete, dec_text, dec_bytes, as_bytes, utf8, arith, suc, ◌≤◌,
}
use tideline.Base.Table
use tideline.Base.Bytes
use tideline.Proto.Kind
use tideline.Proto.Kind.{kind_discrete}
use tideline.Proto.Canon
use tideline.Proto.Event
use tideline.Proto.Event.{RunEvent}
use tideline.Record.Store.{dec_key}
use tideline.Record.Tables
use tideline.Record.Sqlite
use tideline.Record.Sqlite.{find_run}
use tideline.Record.Redact
use tideline.Record.History
use tideline.Record.History.{run, empty}
use tideline.Sdk
use tideline.Sdk.{Server, Fetched, Gate, events_paged, decided, await_gate, first_delay}
use tideline.Sdk.Sse.{sse_events, feed}
use tideline.Sdk.Paging.{Growing, Placed, events_paged-record}
use tideline.Sdk.Whole.{store_server, stored, events_paged-whole, events_paged_short}
use tideline.Sdk.Waiting.{Answers, BacksOff, await_gate-decided}
use tideline.Sdk.Chunks.{flatten, sse_events-flatten}
use tideline.Tests.Fixtures.{
  plain, stamps, key, three_calls, sealed_row, opening_event, second_event,
}

program : Unit {0}
unfolding Table.get Table.insert utf8 as_bytes dec_text dec_bytes ℕ_discrete kind_discrete
    Kind.as_str Kind.find_kind Kind.parse Bytes.be_bytes Canon.retained Canon.digest Canon.canon
    Canon.hash Event.core Event.metadata_raw dec_key Tables.update Tables.envelope_meta
    Tables.row_to_event Tables.has_seq Tables.find_row Tables.replace_row Tables.redaction_meta
    Sqlite.head_of_row Sqlite.head_of Sqlite.update_run Sqlite.insert_event Sqlite.write_event
    Sqlite.next_row Sqlite.append_in_tx Sqlite.first_row Sqlite.create_run Sqlite.prior
    Sqlite.remember Sqlite.append Sqlite.seal Redact.contains Redact.check_fields Redact.present
    Redact.set_null Redact.erase_field Redact.erase_fields Redact.erased Redact.redact History.step
    History.run Sdk.is_pending
program = tt

sealed_found :
    find_run plain stamps (run plain stamps (empty plain stamps) three_calls) key ≡ some sealed_row
unfolding program
sealed_found = refl

three_events : length (stored plain stamps three_calls key) ≡ 3
unfolding program
three_events = refl

events_paged-whole_example :
    events_paged plain (store_server plain stamps three_calls key) 2 2
    ≡ some (Fetched.ok (stored plain stamps three_calls key))
events_paged-whole_example =
    events_paged-whole plain stamps three_calls key sealed_row 2 2 sealed_found
      (omega (arith, three_events)) (omega arith) (omega arith) (omega (arith, three_events))

events_paged_short_example :
    events_paged plain (store_server plain stamps three_calls key) 6000 (suc 0)
    ≡ some (Fetched.ok (take 5000 (stored plain stamps three_calls key)))
events_paged_short_example =
    events_paged_short plain stamps three_calls key sealed_row 6000 0 sealed_found
      (omega (arith, three_events)) (omega arith)

-- A record that has a second event from the second request on.
abbrev pub grown : ℕ → List (RunEvent plain)
grown zero = opening_event ∷ []
grown (suc i) = opening_event ∷ second_event ∷ []

abbrev page_of_grown : Server plain
page_of_grown i from limit = Fetched.ok (take limit (drop from (grown i)))

pub grown-Growing : Growing plain 2 grown
grown-Growing = record { placed = placed; grows = grows; bounded = bounded }
  where
    placed : (i : ℕ) → Placed plain 0 (grown i)
    placed zero = (refl, tt)
    placed (suc i) = (refl, (refl, tt))

    grows : (i : ℕ) → (more : List (RunEvent plain)) × (grown (suc i) ≡ grown i ++ more)
    grows zero = (second_event ∷ [], refl)
    grows (suc i) = ([], refl)

    bounded : (i : ℕ) → length (grown i) ≤ 2
    bounded zero = omega arith
    bounded (suc i) = omega arith

events_paged-record_example :
    (j : ℕ) × (events_paged plain page_of_grown 1 3 ≡ some (Fetched.ok (grown j)))
events_paged-record_example =
    events_paged-record plain 2 1 3 grown page_of_grown grown-Growing (λ i from inside. refl)
      (omega arith) (omega arith) (omega arith)

abbrev gate : String → Option Sdk.Decision → Gate
gate state decision = record {
  seq = 1;
  action = "deploy";
  expires_at = 100;
  state = state;
  decision = decision;
  reviewer = none;
  reviewer_principal = none;
  attested = false;
  note = none;
}

-- A gate that is approved by the third request.
abbrev polled : ℕ → Fetched Gate
polled zero = Fetched.ok (gate "pending" none)
polled (suc zero) = Fetched.ok (gate "pending" none)
polled (suc (suc i)) = Fetched.ok (gate "resolved" (some Sdk.approved))

is_waiting : Sdk.is_pending (gate "pending" none) ≡ true
unfolding program
is_waiting = refl

is_over : Sdk.is_pending (gate "resolved" (some Sdk.approved)) ≡ false
unfolding program
is_over = refl

await_gate-decided_example :
    (res : Fetched Sdk.Resolution) × (delays : List ℕ) × (await_gate polled 1 3
      ≡ some (res, delays))
    × Answers 1 (gate "resolved" (some Sdk.approved)) res
    × (length delays ≡ 2)
    × BacksOff 250 delays
await_gate-decided_example =
    await_gate-decided polled 1 2 3 (gate "resolved" (some Sdk.approved))
      ((gate "pending" none, refl, is_waiting), ((gate "pending" none, refl, is_waiting), tt)) refl
      is_over (omega arith)

-- "data:a", a blank line and "data:", in three chunks: the text of an event is its bytes.
abbrev chunks : List (List ℕ)
chunks =
    (100 ∷ 97 ∷ 116 ∷ []) ∷ (97 ∷ 58 ∷ 97 ∷ 10 ∷ []) ∷ (10 ∷ 100 ∷ 97 ∷ 116 ∷ 97 ∷ 58 ∷ []) ∷ []

sse_events-flatten_example :
    sse_events some [] (map some chunks) ≡ (feed some [] (flatten chunks)).0
sse_events-flatten_example = sse_events-flatten some chunks
