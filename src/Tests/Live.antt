-- ===== src/Tests/Live.antt =====
-- The properties of streams, gates and access at small inputs.
use tideline.Base.{
  ◌≤◌, ℕ, ◌+◌, ◌≡◌, ◌↔◌, ◌⊎◌, ◌<◌, refl, String, true, false, none, some, List, [], ◌∷◌, ◌++◌,
  length, ℕ_discrete, dec_text, as_bytes, utf8, arith, max, map, if◌then◌else◌,
}
use tideline.Base.Json
use tideline.Base.Json.{string, number, object, field, no_fields}
use tideline.Proto.Kind
use tideline.Proto.Kind.{kind_discrete}
use tideline.Proto.Event.{RunEvent}
use tideline.Stream
use tideline.Stream.{
  Token, Signal, Stream, token, gap, with_capacity, publish, snapshot_from, read_stream,
}
use tideline.Stream.Buffer.{
  From, IsBuffer, Op, publishes, completes, fails, apply_all, stream-IsBuffer, snapshot_from-From,
}
use tideline.Stream.Replay.{publish_all, received, tokens_of, read_stream_seamless}
use tideline.Stream.Terminal.{SameEnd, terminal_stays}
use tideline.Approvals
use tideline.Approvals.{
  Gate, project, approved, rejected, pending, resolved, requested_name, resolved_name,
}
use tideline.Base.{drop, ◌-◌, ◌≤◌}
use tideline.Approvals.Gates.{gates_of, Stay, project-gates_of, decided_stays}
use tideline.Approvals.Operations.{find_gate, decision_event, resolution}
use tideline.Approvals.Written.{Carries, resolution_decides}
use tideline.Manager.{default_config, ManagerConfig, with_config}
use tideline.Manager.Capacity
use tideline.Manager.Capacity.{registry-Bounded}
use tideline.Auth.{granted, AuthMode, resolve_read}
use tideline.Auth.Grants.{IsOpen, Presents, resolve_read_iff}
use tideline.Tests.Fixtures.{plain, plain-IsPlatform, stamps, opening_event, second_event}

program : Unit {0}
unfolding utf8 as_bytes dec_text ℕ_discrete kind_discrete Json.index Json.find_field
    Stream.with_capacity Stream.publish Stream.trim Stream.earliest_retained Stream.filter_from
    Stream.snapshot_from Stream.live Stream.ending Stream.read_stream Approvals.parse
    Approvals.and_then Approvals.meta Approvals.opened Approvals.decided Approvals.is_pending
    Approvals.change_pending Approvals.resolve_in Approvals.observe Approvals.project_from
    Approvals.project
program = tt

abbrev ops : List Op
ops = publishes 1 "a" ∷ publishes 2 "b" ∷ publishes 3 "c" ∷ completes 4 ∷ []

stream-IsBuffer_example :
    IsBuffer (apply_all (with_capacity 0 2) ops).inner
    × (length (apply_all (with_capacity 0 2) ops).inner.tokens ≤ max 2 1)
stream-IsBuffer_example = stream-IsBuffer 0 2 ops

-- Two of three tokens are kept.
abbrev full : Stream
full = record {
  inner = record {
    tokens = record { offset = 1; text = "b" } ∷ record { offset = 2; text = "c" } ∷ [];
    next_offset = 3;
    complete = false;
    error = none;
    completed_at = none;
    last_activity = 3;
    max_buffer = 2;
  };
  sent = [];
  subscribers = 0;
  created_at = 0;
  private = false;
}

full-IsBuffer : IsBuffer full.inner
full-IsBuffer = record {
  start = 1;
  offsets = (refl, (refl, tt));
  ends = refl;
  capped = omega arith;
  positive = omega arith;
}

snapshot_from-From_example :
    ((snapshot_from full 0).tokens ≡ drop (0 - full-IsBuffer.start) full.inner.tokens)
    × From (max 0 full-IsBuffer.start) (snapshot_from full 0).tokens
    × (max 0 full-IsBuffer.start + length (snapshot_from full 0).tokens
        ≡ (snapshot_from full 0).total)
    × (((snapshot_from full 0).gap ≡ true) ↔ (0 < full-IsBuffer.start))
snapshot_from-From_example = snapshot_from-From full 0 full-IsBuffer (omega arith)

abbrev broken : Stream
broken = record full { inner = record full.inner { error = some "lost"; completed_at = some 4 } }

broken_ended : Stream.is_terminal broken ≡ true
unfolding Stream.is_terminal Stream.is_some
broken_ended = refl

terminal_stays_example : SameEnd broken (apply_all broken (completes 5 ∷ fails 6 "again" ∷ []))
terminal_stays_example = terminal_stays broken (completes 5 ∷ fails 6 "again" ∷ []) broken_ended

abbrev fresh : Stream
fresh = record full { inner = record full.inner { tokens = []; next_offset = 0 } }

published-IsBuffer : IsBuffer (publish_all fresh 5 ("a" ∷ [])).inner
unfolding program publish_all
published-IsBuffer = record {
  start = 0;
  offsets = (refl, tt);
  ends = refl;
  capped = omega arith;
  positive = omega arith;
}

read_stream_seamless_example :
    (j : ℕ) × (ts : List Token) × ((publish_all
        (publish_all fresh 5 ("a" ∷ []))
        5
        ("b" ∷ "c" ∷ [])).sent
      ≡ fresh.sent ++ map token (tokens_of 0 ("a" ∷ "b" ∷ "c" ∷ [])))
    × (read_stream
          (snapshot_from (publish_all fresh 5 ("a" ∷ [])) 0)
          (received (tokens_of 0 ("a" ∷ "b" ∷ "c" ∷ [])))
        ≡ (if (snapshot_from (publish_all fresh 5 ("a" ∷ [])) 0).gap then gap ∷ [] else [])
          ++ map token ts)
    × (ts ≡ drop j (fresh.inner.tokens ++ tokens_of 0 ("a" ∷ "b" ∷ "c" ∷ [])))
    × From (max 0 published-IsBuffer.start) ts
    × (max 0 published-IsBuffer.start + length ts
        ≡ (publish_all (publish_all fresh 5 ("a" ∷ [])) 5 ("b" ∷ "c" ∷ [])).inner.next_offset)
read_stream_seamless_example =
    read_stream_seamless fresh 5 0 ("a" ∷ []) ("b" ∷ "c" ∷ []) published-IsBuffer refl refl
      (omega arith)

abbrev asked : RunEvent plain
asked = record second_event {
  kind = Kind.decision;
  name = some requested_name;
  metadata =
      some (object (field "action" (string "deploy") (field "expires_at" (number 90) no_fields)));
}

abbrev answered : ℕ → String → RunEvent plain
answered n word = record second_event {
  seq = n;
  kind = Kind.decision;
  name = some resolved_name;
  metadata =
      some (object (field "target_seq" (number 1) (field "decision" (string word) no_fields)));
}

abbrev gated : List (RunEvent plain)
gated = opening_event ∷ asked ∷ answered 2 "approved" ∷ answered 3 "rejected" ∷ []

abbrev settled : Gate
settled = record {
  seq = 1;
  action = "deploy";
  expires_at = 90;
  state = resolved approved;
  reviewer = none;
  reviewer_principal = none;
  attested = false;
  note = none;
}

-- The second answer is too late.
project-gated : project plain gated ≡ settled ∷ []
unfolding program
project-gated = refl

project-gates_of_example : project plain gated ≡ gates_of plain gated
project-gates_of_example =
    project-gates_of plain gated (omega arith, (omega arith, (omega arith, (omega arith, tt))))

-- The record up to the first answer, and what follows.
abbrev answered_once : List (RunEvent plain)
answered_once = opening_event ∷ asked ∷ answered 2 "approved" ∷ []

decided_stays_example :
    (kept : List Gate) × (further : List Gate) × (project plain
        (answered_once ++ answered 3 "rejected" ∷ [])
      ≡ kept ++ further)
    × Stay plain (project plain answered_once) kept
decided_stays_example =
    decided_stays plain answered_once (answered 3 "rejected" ∷ [])
      (omega arith, (omega arith, (omega arith, (omega arith, tt))))

abbrev verdict : RunEvent plain
verdict = record second_event {
  seq = 2;
  kind = Kind.decision;
  name = some resolved_name;
  metadata = some (resolution plain stamps 1 rejected (some "ann") none true (some "too risky"));
}

abbrev waiting : Gate
waiting = record settled { state = pending }

verdict-Carries : Carries plain verdict (
    decision_event plain stamps resolved_name
      (resolution plain stamps 1 rejected (some "ann") none true (some "too risky")))
unfolding decision_event
verdict-Carries = record { kind = refl; name = refl; metadata = refl }

gate_waits : find_gate 1 (project plain (opening_event ∷ asked ∷ [])) ≡ some waiting
unfolding program find_gate
gate_waits = refl

waiting_open : Approvals.is_pending waiting.state ≡ true
unfolding program
waiting_open = refl

resolution_decides_example :
    find_gate 1 (project plain ((opening_event ∷ asked ∷ []) ++ verdict ∷ []))
    ≡ some (record waiting {
      state = resolved rejected;
      reviewer = some "ann";
      reviewer_principal = none;
      attested = true;
      note = some "too risky";
    })
resolution_decides_example =
    resolution_decides plain stamps plain-IsPlatform (opening_event ∷ asked ∷ []) verdict 1 rejected
      (some "ann") none true (some "too risky") waiting (omega arith) verdict-Carries gate_waits
      waiting_open

abbrev keyed : AuthMode
keyed = record { publish_token = some "w"; subscribe_token = some "r"; cloud_verify = false }

resolve_read_iff_example : (resolve_read keyed (some "r") none ≡ granted "") ↔ (
    (◌≡◌ {A = String} "" "")
    × (IsOpen keyed
        ⊎ (Presents keyed.subscribe_token (some "r") ⊎ Presents keyed.publish_token (some "r"))))
resolve_read_iff_example = resolve_read_iff keyed (some "r") ""

abbrev small : ManagerConfig
small = record default_config { max_streams = 2 }

abbrev uses : List Capacity.Use
uses =
    Capacity.publishes 1 "x" "a"
    ∷ Capacity.publishes 2 "y" "b"
    ∷ Capacity.completes 3 "x"
    ∷ Capacity.publishes 4 "z" "c"
    ∷ Capacity.reaps 5
    ∷ []

registry-Bounded_example : length (Capacity.apply_all (with_config small) uses).streams ≤ max 2 1
registry-Bounded_example = registry-Bounded small uses
