-- ===== src/Cli/Attested.antt =====
-- `check_checkpoint` of crates/tideline-cli/src/main.rs: which checkpoints vouch for a record.
use tideline.Base.{
  ℕ, zero, suc, ◌+◌, ◌≤◌, ◌≡◌, ◌⊎◌, ◌↔◌, refl, sym, ◌∙◌, ap, subst, inl, inr, String, Bool, Option,
  none, some, List, [], ◌∷◌, ◌++◌, length, length-append, dec_text, dec_bytes, ltb, ltb→lt, ◌==◌,
  arith, Option-cases, Bool-cases,
}
use tideline.Platform.{Platform}
use tideline.Signing.{Signing}
use tideline.Proto.Digest.{Hash, zero_hash}
use tideline.Proto.Event.{RunEvent}
use tideline.Proto.Chain
use tideline.Proto.Chain.{ChainOk, verify_chain, Checked-cases}
use tideline.Proto.Chain.Linked.{Linked, last_or-seq}
use tideline.Proto.Chain.Verify.{verify_chain_iff}
use tideline.Proto.Checkpoint
use tideline.Proto.Checkpoint.{Checkpoint}
use tideline.Cli.{
  sound_code, find_event, run_id_of, check_signature, check_key, check_covered, check_run,
}

module _ (p : Platform) where
  -- The event that stands at a place of a record.
  pub record EventAt (n : ℕ) (events : List (RunEvent p)) : Type 0 where
    pub before : List (RunEvent p)
    pub covered : RunEvent p
    pub behind : List (RunEvent p)
    pub parts : events ≡ before ++ covered ∷ behind
    pub place : length before ≡ n

  abbrev later :
      {n : ℕ} {e : RunEvent p} {es : List (RunEvent p)} → EventAt n es → EventAt (suc n) (e ∷ es)
  later {n} {e} {es} at = record {
    before = e ∷ at.before;
    covered = at.covered;
    behind = at.behind;
    parts = ap (◌∷◌ e) at.parts;
    place = ap suc at.place;
  }

  -- In a linked list of events, the one found by its number is the one at that place.
  find_event-EventAt :
      (i n k : ℕ) (prev : Hash) (es : List (RunEvent p)) (c : RunEvent p)
      → Linked p i prev es
      → k ≡ i + n
      → find_event p k es ≡ some c
      → (at : EventAt n es) × (at.covered ≡ c)
  unfolding find_event
  find_event-EventAt i n k prev [] c h w q = absurd (ground arith)
  find_event-EventAt i zero k prev (e ∷ es) c h w q = (
    record { before = []; covered = e; behind = es; parts = refl; place = refl },
    ground (arith, h.0),
  )
  find_event-EventAt i (suc n) k prev (e ∷ es) c h w q =
      let next : find_event p k es ≡ some c = ground (arith, h.0) in
      let (at, same) = find_event-EventAt (suc i) n k e.hash es c h.3 (omega arith) next in
      (later at, same)

  find_event_parts :
      (i k : ℕ) (prev : Hash) (before : List (RunEvent p)) (c : RunEvent p)
      (behind : List (RunEvent p))
      → Linked p i prev (before ++ c ∷ behind)
      → k ≡ i + length before
      → find_event p k (before ++ c ∷ behind) ≡ some c
  unfolding find_event
  find_event_parts i k prev [] c behind h w = ground (arith, h.0)
  find_event_parts i k prev (e ∷ es) c behind h w =
      ground (arith, h.0, find_event_parts (suc i) k e.hash es c behind h.3 (omega arith))

  EventAt-find_event :
      (n : ℕ) (es : List (RunEvent p)) (at : EventAt n es)
      → Linked p 0 zero_hash es
      → find_event p n es ≡ some at.covered
  EventAt-find_event n es at h =
      subst (λ l. find_event p n l ≡ some at.covered) (sym at.parts)
        (find_event_parts 0 n zero_hash at.before at.covered at.behind
          (subst (Linked p 0 zero_hash) at.parts h) (omega (arith, at.place)))

-- What `check_signature` asks of a checkpoint and the text of a public key.
abbrev pub IsSigned : (p : Platform) (s : Signing) → Checkpoint s → Option s.Base64 → Type 0
IsSigned p s cp none = Unit
IsSigned p s cp (some key_b64) =
    (raw : List ℕ) × (key : s.VerifyingKey) × (s.decode key_b64 ≡ some raw)
    × (length raw ≡ 32)
    × (s.key_from_bytes raw ≡ some key)
    × (Checkpoint.verify p s cp key ≡ Checkpoint.ok)

-- A checkpoint is of the run that a record declares, if it declares one.
abbrev pub NamesRun : {s : Signing} → Checkpoint s → Option String → Type 0
NamesRun cp none = Unit
NamesRun cp (some run_id) = cp.run_id ≡ run_id

-- A checkpoint vouches for a record up to the event at its place.
pub record Attests (p : Platform) (s : Signing) (cp : Checkpoint s) (public_key : Option s.Base64)
    (events : List (RunEvent p)) : Type 0 where
  pub names : NamesRun cp (run_id_of p events)
  pub event : EventAt p cp.seq events
  pub head : event.covered.hash ≡ cp.head_hash
  pub is_signed : IsSigned p s cp public_key

module _ (p : Platform) (s : Signing) where
  check_key_iff :
      (cp : Checkpoint s) (pk : Option s.Base64) (r : ChainOk) (quiet : Bool)
      → ((check_key p s cp pk r quiet).0 ≡ sound_code) ↔ IsSigned p s cp pk
  unfolding check_key check_signature
  check_key_iff cp none r quiet = (λ h. tt, λ h. refl)
  check_key_iff cp (some b64) r quiet = elim (Option-cases (s.decode b64)) [
    | inl d ↦ (λ h. absurd (ground arith), λ (raw, key, x, _, _, _). absurd (ground arith))
    | inr (raw, d) ↦ elim (Bool-cases (length raw == 32)) [
      | inr w ↦ (λ h. absurd (ground arith), λ (raw', key, x, y, _, _). absurd (ground arith))
      | inl w ↦ elim (Option-cases (s.key_from_bytes raw)) [
        | inl k ↦ (λ h. absurd (ground arith), λ (raw', key, x, y, z, _). absurd (ground arith))
        | inr (key, k) ↦ elim (Verified-cases (Checkpoint.verify p s cp key)) [
          | inl v ↦ (λ h. (raw, key, d, ground arith, k, v), λ h. ground arith)
          | inr (e, v) ↦
              (λ h. absurd (ground arith), λ (raw', key', x, y, z, u). absurd (ground arith))
        ]
      ]
    ]
  ]
    where
      Verified-cases :
          (v : Checkpoint.Verified)
          → (v ≡ Checkpoint.ok) ⊎ ((e : Checkpoint.CheckpointError) × (v ≡ Checkpoint.err e))
      Verified-cases Checkpoint.ok = inl refl
      Verified-cases (Checkpoint.err e) = inr (e, refl)

  -- For a record whose chain is sound.
  check_covered_iff :
      (cp : Checkpoint s) (pk : Option s.Base64) (e : RunEvent p) (es : List (RunEvent p))
      (r : ChainOk) (quiet : Bool)
      → verify_chain p (e ∷ es) ≡ Chain.ok r
      → ((check_covered p s cp pk (e ∷ es) r quiet).0 ≡ sound_code)
        ↔ ((at : EventAt p cp.seq (e ∷ es)) × (at.covered.hash ≡ cp.head_hash) × IsSigned p s cp pk)
  unfolding check_covered
  check_covered_iff cp pk e es r quiet v =
      let (chain, says) = (verify_chain_iff p (e ∷ es) r).0 v in
      let top : r.head_seq ≡ length es =
        omega (arith, says.1, last_or-seq p 0 zero_hash e es chain.1) in
      let inside : (at : EventAt p cp.seq (e ∷ es)) → cp.seq ≤ r.head_seq = λ at.
        omega
          (arith, at.place, ap length at.parts, length-append at.before (at.covered ∷ at.behind)) in
      elim (Bool-cases (ltb r.head_seq cp.seq)) [
        | inl past ↦ (
          λ h. absurd (ground arith),
          λ (at, _, _). absurd (omega (arith, inside at, ltb→lt _ _ past)),
        )
        | inr within ↦ elim (Option-cases (find_event p cp.seq (e ∷ es))) [
          | inl f ↦ (
            λ h. absurd (ground arith),
            λ (at, _, _). absurd (ground (arith, EventAt-find_event p cp.seq (e ∷ es) at chain.1)),
          )
          | inr (c, f) ↦ elim (dec_bytes c.hash cp.head_hash) [
            | no n ↦ (
              λ h. absurd (ground arith),
              λ (at, same, _).
                  absurd (ground (arith, EventAt-find_event p cp.seq (e ∷ es) at chain.1)),
            )
            | yes same ↦
                let (at, is) =
                  find_event-EventAt p 0 cp.seq cp.seq zero_hash (e ∷ es) c chain.1 (omega arith)
                    f in
                (
                  λ h. (
                    at,
                    ap (λ x. x.hash) is ∙ same,
                    (check_key_iff cp pk r quiet).0 (ground arith),
                  ),
                  λ (_, _, k). ground (arith, (check_key_iff cp pk r quiet).1 k),
                )
          ]
        ]
      ]

  pub check_run_iff :
      (cp : Checkpoint s) (pk : Option s.Base64) (e : RunEvent p) (es : List (RunEvent p))
      (r : ChainOk) (quiet : Bool)
      → verify_chain p (e ∷ es) ≡ Chain.ok r
      → ((check_run p s cp pk (e ∷ es) r quiet).0 ≡ sound_code) ↔ Attests p s cp pk (e ∷ es)
  unfolding check_run
  check_run_iff cp pk e es r quiet v =
      let (out, back) = check_covered_iff cp pk e es r quiet v in
      elim (Option-cases (run_id_of p (e ∷ es))) [
        | inl f ↦ (
          λ h. attested (subst (NamesRun cp) (sym f) tt) (out (ground arith)),
          λ a. ground (arith, back (a.event, a.head, a.is_signed)),
        )
        | inr (id, f) ↦ elim (dec_text cp.run_id id) [
          | no n ↦ (λ h. absurd (ground arith), λ a. absurd (n (subst (NamesRun cp) f a.names)))
          | yes same ↦ (
            λ h. attested (subst (NamesRun cp) (sym f) same) (out (ground arith)),
            λ a. ground (arith, back (a.event, a.head, a.is_signed)),
          )
        ]
      ]
    where
      attested :
          NamesRun cp (run_id_of p (e ∷ es))
          → (at : EventAt p cp.seq (e ∷ es)) × (at.covered.hash ≡ cp.head_hash) × IsSigned p s cp pk
          → Attests p s cp pk (e ∷ es)
      attested names (at, same, signed) = record {
        names = names;
        event = at;
        head = same;
        is_signed = signed;
      }
