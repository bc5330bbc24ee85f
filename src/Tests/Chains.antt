-- ===== src/Tests/Chains.antt =====
-- The properties of records, digests and checkpoints at small ones.
use tideline.Base.{
  ◌≡◌, ◌↔◌, ◌⊎◌, refl, String, false, some, [], ◌∷◌, ℕ_discrete, dec_text, dec_bytes, as_bytes,
  utf8, arith,
}
use tideline.Base.Table
use tideline.Base.Bytes
use tideline.Proto.Kind
use tideline.Proto.Kind.{EventKind, kind_discrete, parse_iff}
use tideline.Proto.Digest
use tideline.Proto.Digest.{Hash, zero_hash, IsHash, from_hex, to_hex}
use tideline.Proto.Canon
use tideline.Proto.Canon.{EventCore, canon, canon_len}
use tideline.Proto.Canon.Layout.{IsCore, SameValues, Collision, canon-SameValues}
use tideline.Proto.Event
use tideline.Proto.Event.{RunEvent, core}
use tideline.Base.{length, ◌≢◌}
use tideline.Proto.Kind.{run_started}
use tideline.Proto.Chain
use tideline.Proto.Chain.{ChainOk, ChainError, verify_chain, seq_gap, empty, not_run_started}
use tideline.Proto.Chain.Linked.{IsChain, Describes}
use tideline.Proto.Chain.Verify.{verify_chain_iff}
use tideline.Proto.Chain.Faults.{FaultIn, Opens, verify_chain-FaultIn}
use tideline.Proto.Chain.Tamper.{canons, SameEvents, verify_chain_cancel}
use tideline.Proto.Checkpoint
use tideline.Proto.Checkpoint.{Checkpoint, sign, verify}
use tideline.Proto.Checkpoint.Signed.{verify-sign}
use tideline.Tests.Fixtures.{
  plain, plain-IsPlatform, stamps, stamps-IsSigning, any_hash, opening_event, second_event,
}

program : Unit {0}
unfolding Table.get utf8 as_bytes dec_text dec_bytes ℕ_discrete kind_discrete Kind.as_str
    Bytes.be_bytes Canon.retained Canon.digest Canon.canon Canon.hash Event.core Event.metadata_raw
    Chain.check_event Chain.check_from Chain.verify_chain Checkpoint.canon_of Checkpoint.canon
    Checkpoint.sign Digest.to_hex Digest.hex_char Digest.from_hex
program = tt

abbrev report : ChainOk
report = record { len = 2; head_seq = 1; head_hash = any_hash; is_sealed = false }

two_events_verify : verify_chain plain (opening_event ∷ second_event ∷ []) ≡ Chain.ok report
unfolding program
two_events_verify = refl

verify_chain_iff_example :
    (verify_chain plain (opening_event ∷ second_event ∷ []) ≡ Chain.ok report) ↔ (
      IsChain plain (opening_event ∷ second_event ∷ [])
      × Describes plain (opening_event ∷ second_event ∷ []) report)
verify_chain_iff_example = verify_chain_iff plain (opening_event ∷ second_event ∷ []) report

abbrev late : RunEvent plain
late = record second_event { seq = 5 }

late_refused : verify_chain plain (opening_event ∷ late ∷ []) ≡ Chain.err (seq_gap 1 5)
unfolding program
late_refused = refl

verify_chain-FaultIn_example :
    ((opening_event ∷ late ∷ [] ≡ []) × (seq_gap 1 5 ≡ empty))
    ⊎ ((o : Opens plain (opening_event ∷ late ∷ [])) × (o.first.kind ≢ run_started)
        × (seq_gap 1 5 ≡ not_run_started))
    ⊎ ((o : Opens plain (opening_event ∷ late ∷ [])) × (o.first.kind ≡ run_started)
        × FaultIn plain 0 zero_hash (opening_event ∷ late ∷ []) (seq_gap 1 5))
verify_chain-FaultIn_example =
    verify_chain-FaultIn plain (opening_event ∷ late ∷ []) (seq_gap 1 5) late_refused

-- Another text of the same length, which the digest of the tests does not tell apart.
abbrev twin : RunEvent plain
twin = record second_event { content = some "ho" }

opening-IsCore : IsCore (core plain opening_event)
unfolding program
opening-IsCore = record { seq_fits = omega arith; ts_fits = omega arith; kept_width = λ f. refl }

second-IsCore : IsCore (core plain second_event)
unfolding program
second-IsCore = record { seq_fits = omega arith; ts_fits = omega arith; kept_width = λ f. refl }

twin-IsCore : IsCore (core plain twin)
unfolding program
twin-IsCore = record { seq_fits = omega arith; ts_fits = omega arith; kept_width = λ f. refl }

same_canon : canon plain (core plain second_event) ≡ canon plain (core plain twin)
unfolding program
same_canon = refl

canon-SameValues_example : SameValues (core plain second_event) (core plain twin) ⊎ Collision plain
canon-SameValues_example =
    canon-SameValues plain plain-IsPlatform (core plain second_event) (core plain twin)
      second-IsCore twin-IsCore same_canon

twins_verify : verify_chain plain (opening_event ∷ twin ∷ []) ≡ Chain.ok report
unfolding program
twins_verify = refl

verify_chain_cancel_example :
    ((length (opening_event ∷ second_event ∷ []) ≡ length (opening_event ∷ twin ∷ []))
      × (canons plain (opening_event ∷ second_event ∷ [])
          ≡ canons plain (opening_event ∷ twin ∷ []))
      × SameEvents plain plain-IsPlatform
          (opening_event ∷ second_event ∷ [])
          (opening_event ∷ twin ∷ []))
    ⊎ Collision plain
verify_chain_cancel_example =
    verify_chain_cancel plain plain-IsPlatform (opening_event ∷ second_event ∷ [])
      (opening_event ∷ twin ∷ []) report report (opening-IsCore, (second-IsCore, tt))
      (opening-IsCore, (twin-IsCore, tt)) two_events_verify twins_verify refl refl

verify-sign_example :
    verify plain stamps (sign plain stamps "r1" 2 any_hash 12 "ed25519" 7) 7 ≡ Checkpoint.ok
verify-sign_example = verify-sign plain stamps stamps-IsSigning "r1" 2 any_hash 12 "ed25519" 7

abbrev attested : String → Checkpoint stamps
attested run_id = record {
  run_id = run_id;
  seq = 2;
  head_hash = any_hash;
  ts = 12;
  key_id = "ed25519";
  sig = [];
}
