-- ===== src/Cli.antt =====
-- crates/tideline-cli/src/main.rs: `tideline verify`. Reading a file and parsing its text are the
-- environment's; a printed line is kept as what it says.
pub mod Attested
pub mod Verdict
pub mod History
use tideline.Base.{
  ℕ, ◌-◌, String, Bool, true, false, ite, Option, none, some, List, [], ◌∷◌, ◌++◌, max, length,
  dec_text, dec_bytes, ltb, ◌==◌, if◌then◌else◌, not, ◌&&◌,
}
use tideline.Base.Json.{Value, index, as_str}
use tideline.Platform.{Platform}
use tideline.Signing.{Signing}
use tideline.Proto.Digest.{Hash}
use tideline.Proto.Event.{RunEvent}
use tideline.Proto.Chain
use tideline.Proto.Chain.{ChainOk, ChainError, verify_chain}
use tideline.Proto.Checkpoint
use tideline.Proto.Checkpoint.{Checkpoint, CheckpointError}

abbrev pub sound_code : ℕ
sound_code = 0

abbrev pub unsound_code : ℕ
unsound_code = 1

abbrev pub unreadable_code : ℕ
unreadable_code = 2

-- The files that a command can name, `-` with them, and serde_json's parsers of their texts.
pub record Files (p : Platform) (s : Signing) : Type 1 where
  pub Text : Type 0
  pub read : String → Option Text
  pub parse_events : Text → Option (List (RunEvent p))
  pub parse_checkpoint : Text → Option (Checkpoint s)

-- What is printed, on either stream.
pub data Line : Type 0 where
  cannot_read : String → Line
  not_a_record : Line
  described : ChainError → Line
  short_ok : Line
  events_verified : ℕ → Line
  head_is : Hash → ℕ → Line
  may_be_truncated : Line
  sealed_yes : Line
  not_a_checkpoint : Line
  other_run : String → String → Line
  truncated : ℕ → ℕ → ℕ → Line
  other_history : ℕ → Hash → Hash → Line
  not_in_record : ℕ → Line
  matches_unsigned : ℕ → Line
  key_not_base64 : Line
  key_not_32_bytes : Line
  key_not_valid : Line
  signature_valid : String → ℕ → Line
  covers_part : ℕ → ℕ → ℕ → Line
  signature_bad : CheckpointError → Line

-- An exit code, with what was printed on the way.
abbrev pub Verdict : Type 0
Verdict = ℕ × List Line

unfoldable pub unless : Bool → List Line → List Line
unless quiet lines = if quiet then [] else lines

unfoldable pub summary_lines : ChainOk → Bool → List Line
summary_lines report quiet =
    if quiet
    then short_ok ∷ []
    else events_verified report.len ∷ head_is report.head_hash report.head_seq ∷ []

module _ (p : Platform) where
  -- `events.iter().find(|e| e.seq == seq)`
  unfoldable pub find_event : ℕ → List (RunEvent p) → Option (RunEvent p)
  find_event seq [] = none
  find_event seq (e ∷ es) = let rest = find_event seq es in if e.seq == seq then some e else rest

  unfoldable pub run_id_in : Option p.RawValue → Option String
  run_id_in none = none
  run_id_in (some raw) = elim (p.from_raw raw) [ none ↦ none | some v ↦ as_str (index v "run_id") ]

  unfoldable pub run_id_of : List (RunEvent p) → Option String
  run_id_of [] = none
  run_id_of (first ∷ rest) = run_id_in first.metadata

module _ (p : Platform) (s : Signing) where
  unfoldable pub check_signature : Checkpoint s → s.Base64 → ChainOk → Bool → Verdict
  check_signature cp key_b64 report quiet = elim (s.decode key_b64) [
    | none ↦ (unreadable_code, key_not_base64 ∷ [])
    | some raw ↦
        if length raw == 32
        then elim (s.key_from_bytes raw) [
          | none ↦ (unreadable_code, key_not_valid ∷ [])
          | some key ↦ elim (Checkpoint.verify p s cp key) [
            | Checkpoint.ok ↦ (
              sound_code,
              unless quiet (
                  signature_valid cp.key_id cp.seq
                  ∷ (if ltb cp.seq report.head_seq
                      then covers_part cp.seq report.head_seq (report.head_seq - cp.seq) ∷ []
                      else [])),
            )
            | Checkpoint.err e ↦ (unsound_code, signature_bad e ∷ [])
          ]
        ]
        else (unreadable_code, key_not_32_bytes ∷ [])
  ]

  unfoldable pub check_key : Checkpoint s → Option s.Base64 → ChainOk → Bool → Verdict
  check_key cp none report quiet = (sound_code, unless quiet (matches_unsigned cp.seq ∷ []))
  check_key cp (some key_b64) report quiet = check_signature cp key_b64 report quiet

  unfoldable pub check_covered :
      Checkpoint s → Option s.Base64 → List (RunEvent p) → ChainOk → Bool → Verdict
  check_covered cp public_key events report quiet =
      if ltb report.head_seq cp.seq
      then (unsound_code, truncated cp.seq report.head_seq (cp.seq - report.head_seq) ∷ [])
      else elim (find_event p cp.seq events) [
        | none ↦ (unsound_code, not_in_record cp.seq ∷ [])
        | some covered ↦
            ite (dec_bytes covered.hash cp.head_hash) (check_key cp public_key report quiet)
              (unsound_code, other_history cp.seq cp.head_hash covered.hash ∷ [])
      ]

  unfoldable pub check_run :
      Checkpoint s → Option s.Base64 → List (RunEvent p) → ChainOk → Bool → Verdict
  check_run cp public_key events report quiet = elim (run_id_of p events) [
    | none ↦ check_covered cp public_key events report quiet
    | some run_id ↦
        ite (dec_text cp.run_id run_id) (check_covered cp public_key events report quiet)
          (unsound_code, other_run cp.run_id run_id ∷ [])
  ]

module _ (p : Platform) (s : Signing) (files : Files p s) where
  unfoldable pub check_checkpoint :
      String → Option s.Base64 → List (RunEvent p) → ChainOk → Bool → Verdict
  check_checkpoint path public_key events report quiet = elim (files.read path) [
    | none ↦ (unreadable_code, cannot_read path ∷ [])
    | some text ↦ elim (files.parse_checkpoint text) [
      | none ↦ (unreadable_code, not_a_checkpoint ∷ [])
      | some cp ↦ check_run p s cp public_key events report quiet
    ]
  ]

  -- The end of `verify`, for a record whose chain is sound.
  unfoldable pub conclude :
      Option String → Option s.Base64 → List (RunEvent p) → ChainOk → Bool → Verdict
  conclude (some cp_path) public_key events report quiet =
      let (code, lines) = check_checkpoint cp_path public_key events report quiet in
      (max sound_code code, lines)
  conclude none public_key events report quiet = (
    sound_code,
    unless quiet (if report.is_sealed then sealed_yes ∷ [] else may_be_truncated ∷ []),
  )

  unfoldable pub verify : String → Option String → Option s.Base64 → Bool → Verdict
  verify path checkpoint public_key quiet = elim (files.read path) [
    | none ↦ (unreadable_code, cannot_read path ∷ [])
    | some text ↦ elim (files.parse_events text) [
      | none ↦ (unreadable_code, not_a_record ∷ [])
      | some events ↦ elim (verify_chain p events) [
        | Chain.err e ↦ (unsound_code, described e ∷ [])
        | Chain.ok report ↦
            let (code, lines) = conclude checkpoint public_key events report quiet in
            (code, summary_lines report quiet ++ lines)
      ]
    ]
  ]
