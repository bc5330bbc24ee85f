-- ===== src/Tests/Tools.antt =====
-- The properties of the command line at small files.
use tideline.Base.{
  ℕ, ◌≡◌, ◌↔◌, ◌⊎◌, refl, false, true, some, List, [], ◌∷◌, take, replicate, ℕ_discrete, dec_text,
  dec_bytes, as_bytes, utf8, arith, suc,
}
use tideline.Base.Table
use tideline.Base.Bytes
use tideline.Proto.Kind
use tideline.Proto.Kind.{kind_discrete}
use tideline.Proto.Canon
use tideline.Proto.Canon.Layout.{IsCore, Collision}
use tideline.Proto.Event
use tideline.Proto.Event.{RunEvent, core}
use tideline.Proto.Chain
use tideline.Proto.Chain.Linked.{IsChain}
use tideline.Proto.Chain.Tamper.{canons}
use tideline.Proto.Checkpoint
use tideline.Proto.Checkpoint.{Checkpoint}
use tideline.Cli
use tideline.Cli.{Files, verify, sound_code, unsound_code}
use tideline.Cli.Verdict.{Accepted, verify_iff}
use tideline.Cli.History.{verify_cut, verify-canons}
use tideline.Tests.Fixtures.{plain, plain-IsPlatform, stamps, any_hash, opening_event, second_event}

program : Unit {0}
unfolding Table.get utf8 as_bytes dec_text dec_bytes ℕ_discrete kind_discrete Kind.as_str
    Bytes.be_bytes Canon.retained Canon.digest Canon.canon Canon.hash Event.core Event.metadata_raw
    Chain.check_event Chain.check_from Chain.verify_chain Checkpoint.canon_of Checkpoint.canon
    Checkpoint.sign Checkpoint.verify Cli.unless Cli.find_event Cli.run_id_in Cli.run_id_of
    Cli.check_signature Cli.check_key Cli.check_covered Cli.check_run Cli.check_checkpoint
    Cli.conclude Cli.summary_lines Cli.verify
program = tt

-- A signature of the checkpoint's statement under the key 7.
abbrev signed : Checkpoint stamps
signed = record {
  run_id = "r1";
  seq = 1;
  head_hash = any_hash;
  ts = 20;
  key_id = "k";
  sig = 7 ∷ replicate 63 0;
}

-- Every path leads to one text, which is a record and a checkpoint.
abbrev holding : List (RunEvent plain) → Files plain stamps
holding events = record {
  Text = Unit {0};
  read = λ path. some tt;
  parse_events = λ text. some events;
  parse_checkpoint = λ text. some signed;
}

abbrev two_events : List (RunEvent plain)
two_events = opening_event ∷ second_event ∷ []

abbrev public_key : List ℕ
public_key = 7 ∷ replicate 31 0

two_events_accepted :
    (verify plain stamps (holding two_events) "run.json" (some "cp.json") (some public_key) false).0
    ≡ sound_code
unfolding program
two_events_accepted = refl

verify_iff_example :
    ((verify plain stamps
        (holding two_events)
        "run.json"
        (some "cp.json")
        (some public_key)
        false).0
      ≡ sound_code)
    ↔ Accepted plain stamps (holding two_events) "run.json" (some "cp.json") (some public_key)
verify_iff_example =
    verify_iff plain stamps (holding two_events) "run.json" (some "cp.json") (some public_key) false

one_event-IsChain : IsChain plain (opening_event ∷ [])
unfolding program
one_event-IsChain = (refl, (refl, refl, refl, tt))

verify_cut_example :
    (verify plain stamps
      (holding (opening_event ∷ []))
      "run.json"
      (some "cp.json")
      (some public_key)
      true).0
    ≡ unsound_code
verify_cut_example =
    verify_cut plain stamps (holding (opening_event ∷ [])) "run.json" "cp.json" (some public_key)
      true tt tt (opening_event ∷ []) signed refl refl one_event-IsChain refl refl (omega arith)

opening-IsCore : IsCore (core plain opening_event)
unfolding program
opening-IsCore = record { seq_fits = omega arith; ts_fits = omega arith; kept_width = λ f. refl }

second-IsCore : IsCore (core plain second_event)
unfolding program
second-IsCore = record { seq_fits = omega arith; ts_fits = omega arith; kept_width = λ f. refl }

verify-canons_example :
    (canons plain (take (suc 1) two_events) ≡ canons plain (take (suc 1) two_events))
    ⊎ Collision plain
verify-canons_example =
    verify-canons plain plain-IsPlatform stamps (holding two_events) "run.json" "run.json" "cp.json"
      (some public_key) (some public_key) false false tt tt tt two_events two_events signed
      (refl, refl) (refl, refl) (refl, refl) (opening-IsCore, (second-IsCore, tt))
      (opening-IsCore, (second-IsCore, tt)) two_events_accepted two_events_accepted
