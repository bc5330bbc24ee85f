-- ===== src/Cli/Verdict.antt =====
-- crates/tideline-cli/src/main.rs: which files `tideline verify` accepts.
use tideline.Base.{
  ◌≡◌, ◌↔◌, refl, subst, inl, inr, String, Bool, Option, none, some, List, [], ◌∷◌, arith,
  Option-cases,
}
use tideline.Platform.{Platform}
use tideline.Signing.{Signing}
use tideline.Proto.Event.{RunEvent}
use tideline.Proto.Chain
use tideline.Proto.Chain.{ChainOk, verify_chain, Checked-cases}
use tideline.Proto.Chain.Linked.{IsChain}
use tideline.Proto.Chain.Verify.{verify_chain_iff, verify_chain_total}
use tideline.Proto.Checkpoint.{Checkpoint}
use tideline.Cli.{Files, sound_code, check_checkpoint, conclude, verify}
use tideline.Cli.Attested.{Attests, check_run_iff}

module _ (p : Platform) (s : Signing) (files : Files p s) where
  -- The checkpoint that a command names, if it names one, vouches for the record.
  abbrev pub Covers : Option String → Option s.Base64 → List (RunEvent p) → Type 0
  Covers none pk events = Unit
  Covers (some path) pk events =
      (text : files.Text) × (cp : Checkpoint s) × (files.read path ≡ some text)
      × (files.parse_checkpoint text ≡ some cp)
      × Attests p s cp pk events

  -- The file that a command names holds a sound record, and its checkpoint vouches for it.
  abbrev pub Accepted : String → Option String → Option s.Base64 → Type 0
  Accepted path checkpoint pk =
      (text : files.Text) × (events : List (RunEvent p)) × (files.read path ≡ some text)
      × (files.parse_events text ≡ some events)
      × IsChain p events
      × Covers checkpoint pk events

  conclude_iff :
      (checkpoint : Option String) (pk : Option s.Base64) (e : RunEvent p) (es : List (RunEvent p))
      (r : ChainOk) (quiet : Bool)
      → verify_chain p (e ∷ es) ≡ Chain.ok r
      → ((conclude p s files checkpoint pk (e ∷ es) r quiet).0 ≡ sound_code)
        ↔ Covers checkpoint pk (e ∷ es)
  unfolding conclude check_checkpoint
  conclude_iff none pk e es r quiet v = (λ h. tt, λ h. refl)
  conclude_iff (some path) pk e es r quiet v = elim (Option-cases (files.read path)) [
    | inl f ↦ (λ h. absurd (ground arith), λ (t, cp, a, b, c). absurd (ground arith))
    | inr (text, f) ↦ elim (Option-cases (files.parse_checkpoint text)) [
      | inl g ↦ (λ h. absurd (ground arith), λ (t, cp, a, b, c). absurd (ground arith))
      | inr (cp, g) ↦
          let (out, back) = check_run_iff p s cp pk e es r quiet v in
          (
            λ h. (text, cp, f, g, out (ground arith)),
            λ (t, cp', a, b, c).
                let same : cp' ≡ cp = ground arith in
                ground (arith, back (subst (λ x. Attests p s x pk (e ∷ es)) same c)),
          )
    ]
  ]

  verify-parsed :
      (path : String) (checkpoint : Option String) (pk : Option s.Base64) (quiet : Bool)
      (text : files.Text) (events : List (RunEvent p))
      → files.read path ≡ some text
      → files.parse_events text ≡ some events
      → ((verify p s files path checkpoint pk quiet).0 ≡ sound_code)
        ↔ (IsChain p events × Covers checkpoint pk events)
  unfolding verify verify_chain
  verify-parsed path checkpoint pk quiet text [] f g =
      (λ h. absurd (ground arith), λ (c, _). absurd c)
  verify-parsed path checkpoint pk quiet text (e ∷ es) f g =
      elim (Checked-cases (verify_chain p (e ∷ es))) [
        | inr (x, q) ↦ (
          λ h. absurd (ground arith),
          λ (c, _).
              let (r, passes) = verify_chain_total p (e ∷ es) c in
              absurd (ground (arith, q, passes)),
        )
        | inl (r, q) ↦
            let (out, back) = conclude_iff checkpoint pk e es r quiet q in
            (
              λ h. (((verify_chain_iff p (e ∷ es) r).0 q).0, out (ground arith)),
              λ (_, c). ground (arith, back c),
            )
      ]

  -- `tideline verify` exits with 0 exactly when the file can be read and parsed, its events are a
  -- sound chain, and the checkpoint, if one is named, can be read and parsed, is of the run that the
  -- record declares if it declares one, gives the hash of the event at its place, and is signed by
  -- the public key, if one is named.
  pub verify_iff :
      (path : String) (checkpoint : Option String) (pk : Option s.Base64) (quiet : Bool)
      → ((verify p s files path checkpoint pk quiet).0 ≡ sound_code) ↔ Accepted path checkpoint pk
  unfolding verify
  verify_iff path checkpoint pk quiet = elim (Option-cases (files.read path)) [
    | inl f ↦ (λ h. absurd (ground arith), λ (t, es, a, _, _, _). absurd (ground arith))
    | inr (text, f) ↦ elim (Option-cases (files.parse_events text)) [
      | inl g ↦ (λ h. absurd (ground arith), λ (t, es, a, b, _, _). absurd (ground arith))
      | inr (events, g) ↦
          let (out, back) = verify-parsed path checkpoint pk quiet text events f g in
          (
            λ h. let (c, d) = out h in (text, events, f, g, c, d),
            λ (t, es, a, b, c, d).
                let same : es ≡ events = ground arith in
                back (subst (IsChain p) same c, subst (Covers checkpoint pk) same d),
          )
    ]
  ]
