-- ===== src/Tests/Records.antt =====
-- The properties of the store at small runs.
use tideline.Base.{
  take, drop, length, ◌+◌, ◌<◌, ◌^◌, arith, ℕ, ◌≡◌, ◌≢◌, refl, ap, String, none, some, List, [],
  ◌∷◌, ◌++◌, ℕ_discrete, dec_text, dec_bytes, as_bytes, utf8,
}
use tideline.Base.Table
use tideline.Base.Bytes
use tideline.Proto.Kind
use tideline.Proto.Kind.{kind_discrete}
use tideline.Proto.Digest.{Hash}
use tideline.Proto.Canon
use tideline.Proto.Event
use tideline.Proto.Chain
use tideline.Proto.Chain.{ChainOk, verify_chain}
use tideline.Record.Store.{RunKey, dec_key, ok, AppendResult}
use tideline.Record.Tables
use tideline.Record.Tables.{Db, EventRow}
use tideline.Record.Sqlite
use tideline.Record.Sqlite.{find_run, append, seal}
use tideline.Record.Redact
use tideline.Record.Redact.Keeps.{SameInChain, erased-SameInChain}
use tideline.Record.Invariant.{record_of}
use tideline.Record.History
use tideline.Record.History.{
  run, step, creates, run-IsSound, empty-IsSound, empty, Matches, record_verifies, Call, seals,
  redacts,
}
use tideline.Record.Kept.{append_once, sealed_stays}
use tideline.Record.Growing.{record_grows, marks, runs_apart, SameRun}
use tideline.Record.Paging.{events_page}
use tideline.Tests.Fixtures
use tideline.Tests.Fixtures.{
  plain, stamps, key, two_calls, three_calls, sealed_row, any_hash, said, new_run,
}

program : Unit {0}
unfolding Table.get Table.insert utf8 as_bytes dec_text dec_bytes ℕ_discrete kind_discrete
    Kind.as_str Kind.find_kind Kind.parse Bytes.be_bytes Canon.retained Canon.digest Canon.canon
    Canon.hash Event.core Event.metadata_raw dec_key Tables.update Tables.envelope_meta
    Tables.row_to_event Tables.has_seq Tables.find_row Tables.replace_row Tables.redaction_meta
    Sqlite.head_of_row Sqlite.head_of Sqlite.update_run Sqlite.insert_event Sqlite.write_event
    Sqlite.next_row Sqlite.append_in_tx Sqlite.first_row Sqlite.create_run Sqlite.prior
    Sqlite.remember Sqlite.append Sqlite.seal Redact.contains Redact.check_fields Redact.present
    Redact.set_null Redact.erase_field Redact.erase_fields Redact.erased Redact.redact History.step
    History.run
program = tt

sealed_found :
    find_run plain stamps (run plain stamps (empty plain stamps) three_calls) key ≡ some sealed_row
unfolding program
sealed_found = refl

record_verifies_example :
    (report : ChainOk) × (verify_chain plain
        (record_of plain ((run plain stamps (empty plain stamps) three_calls).events key))
      ≡ Chain.ok report)
    × Matches plain stamps sealed_row report
record_verifies_example = record_verifies plain stamps three_calls key sealed_row sealed_found

abbrev after_seal : List (Call plain stamps)
after_seal = seals 20 key ∷ redacts 21 key 1 ("content" ∷ []) "erasure request" ∷ []

sealed_stays_example :
    (find_run plain stamps
        (run plain stamps (run plain stamps (empty plain stamps) three_calls) after_seal)
        key
      ≡ some sealed_row)
    × ((run plain stamps (run plain stamps (empty plain stamps) three_calls) after_seal).events key
        ≡ (run plain stamps (empty plain stamps) three_calls).events key)
sealed_stays_example =
    sealed_stays plain stamps three_calls after_seal key sealed_row 12 sealed_found refl

abbrev erasure : List (Call plain stamps)
erasure = redacts 12 key 1 ("content" ∷ []) "erasure request" ∷ []

record_grows_example :
    (more : List (ℕ × Hash × Hash)) × (marks plain stamps
        ((run plain stamps (run plain stamps (empty plain stamps) two_calls) erasure).events key)
      ≡ marks plain stamps ((run plain stamps (empty plain stamps) two_calls).events key) ++ more)
record_grows_example = record_grows plain stamps two_calls erasure key

abbrev first_result : AppendResult
first_result = record { seq = 1; ts = 11; prev_hash = any_hash; hash = any_hash }

abbrev opened_only : List (Call plain stamps)
opened_only = creates 10 "acme" new_run ∷ []

appended_once :
    append plain stamps
      (run plain stamps (empty plain stamps) opened_only)
      11
      key
      (said "hi")
      (some "k1")
    ≡ ok (first_result, run plain stamps (empty plain stamps) two_calls)
unfolding program
appended_once = refl

append_once_example :
    append plain stamps
      (run plain stamps (run plain stamps (empty plain stamps) two_calls) erasure)
      40
      key
      (said "other")
      (some "k1")
    ≡ ok (first_result, run plain stamps (run plain stamps (empty plain stamps) two_calls) erasure)
append_once_example =
    append_once plain stamps opened_only erasure (run plain stamps (empty plain stamps) two_calls)
      11 40 key (said "hi") (said "other") "k1" first_result appended_once

abbrev elsewhere : RunKey
elsewhere = ("globex", "r1")

apart : elsewhere ≢ key
apart e = let names : ◌≡◌ {A = String} "globex" "acme" = ap (λ (k : RunKey). k.0) e in cc

runs_apart_example :
    SameRun plain stamps key (run plain stamps (empty plain stamps) three_calls) (
      run plain stamps
        (run plain stamps (empty plain stamps) three_calls)
        (seals 30 elsewhere ∷ []))
runs_apart_example = runs_apart plain stamps three_calls (seals 30 elsewhere ∷ []) key (apart, tt)

abbrev row : EventRow plain
row = record {
  seq = 1;
  ts = 11;
  kind = "message";
  role = some "user";
  name = none;
  content = some "hi";
  metadata = none;
  redacted = none;
  prev_hash = any_hash;
  hash = any_hash;
}

erased-SameInChain_example :
    SameInChain plain row (Redact.erased plain row ("content" ∷ "role" ∷ []))
erased-SameInChain_example = erased-SameInChain plain row ("content" ∷ "role" ∷ [])

-- The content is gone, and its digest is there.
erased_content :
    ((Redact.erased plain row ("content" ∷ [])).content ≡ none)
    × ((Redact.erased plain row ("content" ∷ [])).redacted
        ≡ some (("content", Fixtures.digest_of (as_bytes "hi")) ∷ []))
unfolding program
erased_content = (refl, refl)

three_rows : length ((run plain stamps (empty plain stamps) three_calls).events key) + 1 < 2 ^ 63
unfolding program
three_rows = omega arith

events_page_example :
    Sqlite.events plain stamps (run plain stamps (empty plain stamps) three_calls) key 1 0
    ≡ take
        (Sqlite.clamp 1 5000 0)
        (drop 1 (record_of plain ((run plain stamps (empty plain stamps) three_calls).events key)))
events_page_example =
    events_page plain stamps three_calls key sealed_row 1 0 sealed_found three_rows
