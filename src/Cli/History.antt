-- ===== src/Cli/History.antt =====
-- crates/tideline-cli/src/main.rs: what a checkpoint holds a record to.
use tideline.Base.{
  ℕ, zero, suc, ◌≤◌, ◌≡◌, ◌⊎◌, refl, sym, ◌∙◌, ap, subst, inl, inr, String, Bool, true, Option,
  some, List, [], ◌∷◌, ◌++◌, length, length-append, take, dec_text, ltb, arith, Option-cases,
  append_assoc,
}
use tideline.Platform.{Platform, IsPlatform}
use tideline.Signing.{Signing}
use tideline.Proto.Digest.{Hash, zero_hash}
use tideline.Proto.Event.{RunEvent}
use tideline.Proto.Chain.{ChainOk}
use tideline.Proto.Chain.Linked.{Linked, IsChain, Linked-append, head_after, last_or-seq}
use tideline.Proto.Chain.Verify.{verify_chain_iff, verify_chain_total}
use tideline.Proto.Chain.Tamper.{canons, AllCore, Linked-cancel}
use tideline.Proto.Canon.Layout.{Collision}
use tideline.Proto.Checkpoint.{Checkpoint}
use tideline.Cli.{
  Files, sound_code, unsound_code, run_id_of, check_covered, check_run, check_checkpoint, conclude,
  verify,
}
use tideline.Cli.Attested.{EventAt, Attests}
use tideline.Cli.Verdict.{verify_iff}

module _ (p : Platform) (s : Signing) where
  check_run_short :
      (cp : Checkpoint s) (pk : Option s.Base64) (events : List (RunEvent p)) (r : ChainOk)
      (quiet : Bool)
      → ltb r.head_seq cp.seq ≡ true
      → (check_run p s cp pk events r quiet).0 ≡ unsound_code
  unfolding check_run check_covered
  check_run_short cp pk events r quiet h = elim (Option-cases (run_id_of p events)) [
    | inl f ↦ ground arith
    | inr (id, f) ↦ elim (dec_text cp.run_id id) [ yes same ↦ ground arith | no n ↦ ground arith ]
  ]

module _ (p : Platform) (s : Signing) (files : Files p s) where
  -- A record that is cut off before the place of the checkpoint is refused as not sound, though its
  -- chain is.
  pub verify_cut :
      (path cp_path : String) (pk : Option s.Base64) (quiet : Bool) (text cp_text : files.Text)
      (events : List (RunEvent p)) (cp : Checkpoint s)
      → files.read path ≡ some text
      → files.parse_events text ≡ some events
      → IsChain p events
      → files.read cp_path ≡ some cp_text
      → files.parse_checkpoint cp_text ≡ some cp
      → length events ≤ cp.seq
      → (verify p s files path (some cp_path) pk quiet).0 ≡ unsound_code
  unfolding verify conclude check_checkpoint
  verify_cut path cp_path pk quiet text cp_text [] cp a b chain c d short = absurd chain
  verify_cut path cp_path pk quiet text cp_text (e ∷ es) cp a b chain c d short =
      let (r, v) = verify_chain_total p (e ∷ es) chain in
      let (_, says) = (verify_chain_iff p (e ∷ es) r).0 v in
      let cut : ltb r.head_seq cp.seq ≡ true =
        ground (arith, says.1, last_or-seq p 0 zero_hash e es chain.1, short) in
      ground (arith, v, check_run_short p s cp pk (e ∷ es) r quiet cut)

module _ (p : Platform) where
  -- A record up to an event of it.
  abbrev up_to : {n : ℕ} {events : List (RunEvent p)} → EventAt p n events → List (RunEvent p)
  up_to at = at.before ++ at.covered ∷ []

  take_parts :
      (before : List (RunEvent p)) (c : RunEvent p) (behind : List (RunEvent p))
      → take (suc (length before)) (before ++ c ∷ behind) ≡ before ++ c ∷ []
  take_parts [] c behind = refl
  take_parts (e ∷ es) c behind = ap (◌∷◌ e) (take_parts es c behind)

  take-up_to :
      (n : ℕ) (events : List (RunEvent p)) (at : EventAt p n events)
      → take (suc n) events ≡ up_to at
  take-up_to n events at = rw (at.parts, sym at.place) (take_parts at.before at.covered at.behind)

  head_after_parts :
      (prev : Hash) (before : List (RunEvent p)) (c : RunEvent p)
      → head_after p prev (before ++ c ∷ []) ≡ c.hash
  head_after_parts prev [] c = refl
  head_after_parts prev (e ∷ es) c = head_after_parts e.hash es c

  Linked-up_to :
      (n : ℕ) (events : List (RunEvent p)) (at : EventAt p n events)
      → Linked p 0 zero_hash events
      → Linked p 0 zero_hash (up_to at)
  Linked-up_to n events at h =
      let parts = at.parts ∙ sym (append_assoc at.before (at.covered ∷ []) at.behind) in
      (Linked-append p 0 zero_hash (up_to at) at.behind (subst (Linked p 0 zero_hash) parts h)).0

  AllCore-take : (n : ℕ) (es : List (RunEvent p)) → AllCore p es → AllCore p (take n es)
  AllCore-take zero es h = tt
  AllCore-take (suc n) [] h = tt
  AllCore-take (suc n) (e ∷ es) h = (h.0, AllCore-take n es h.1)

  -- What two records have in common when one place of both has one hash.
  shared :
      (laws : IsPlatform p) (n : ℕ) (es fs : List (RunEvent p)) (at : EventAt p n es)
      (bt : EventAt p n fs)
      → Linked p 0 zero_hash es
      → Linked p 0 zero_hash fs
      → AllCore p es
      → AllCore p fs
      → at.covered.hash ≡ bt.covered.hash
      → (canons p (take (suc n) es) ≡ canons p (take (suc n) fs)) ⊎ Collision p
  shared laws n es fs at bt h k c d same =
      let left = take-up_to n es at in
      let right = take-up_to n fs bt in
      let len : length (up_to at) ≡ length (up_to bt) = omega (
        arith,
        length-append at.before (at.covered ∷ []),
        length-append bt.before (bt.covered ∷ []),
        at.place,
        bt.place,
      ) in
      let heads : head_after p zero_hash (up_to at) ≡ head_after p zero_hash (up_to bt) =
        head_after_parts zero_hash at.before at.covered
        ∙ same
        ∙ sym (head_after_parts zero_hash bt.before bt.covered) in
      elim (Linked-cancel p laws 0 zero_hash zero_hash (up_to at) (up_to bt)
        (Linked-up_to n es at h) (Linked-up_to n fs bt k)
        (subst (AllCore p) left (AllCore-take (suc n) es c))
        (subst (AllCore p) right (AllCore-take (suc n) fs d)) len heads) [
          | inl (is, _) ↦ inl (ap (canons p) left ∙ is ∙ sym (ap (canons p) right))
          | inr x ↦ inr x
        ]

  IsChain-Linked : (es : List (RunEvent p)) → IsChain p es → Linked p 0 zero_hash es
  IsChain-Linked [] h = absurd h
  IsChain-Linked (e ∷ es) h = h.1

module _ (p : Platform) (laws : IsPlatform p) (s : Signing) (files : Files p s) where
  -- When two files are accepted with one checkpoint, their events up to the checkpoint's place have
  -- the same canonical bytes, one by one, or a collision of SHA-256 is at hand.
  pub verify-canons :
      (path path' cp_path : String) (pk pk' : Option s.Base64) (quiet quiet' : Bool)
      (text text' cp_text : files.Text) (es fs : List (RunEvent p)) (cp : Checkpoint s)
      → (files.read path ≡ some text) × (files.parse_events text ≡ some es)
      → (files.read path' ≡ some text') × (files.parse_events text' ≡ some fs)
      → (files.read cp_path ≡ some cp_text) × (files.parse_checkpoint cp_text ≡ some cp)
      → AllCore p es
      → AllCore p fs
      → (verify p s files path (some cp_path) pk quiet).0 ≡ sound_code
      → (verify p s files path' (some cp_path) pk' quiet').0 ≡ sound_code
      → (canons p (take (suc cp.seq) es) ≡ canons p (take (suc cp.seq) fs)) ⊎ Collision p
  verify-canons path path' cp_path pk pk' quiet quiet' text text' cp_text es fs cp a b c h k v w =
      let (x, u) = held path pk quiet text es a v in
      let (y, t) = held path' pk' quiet' text' fs b w in
      shared p laws cp.seq es fs u.event t.event (IsChain-Linked p es x) (IsChain-Linked p fs y) h k
        (u.head ∙ sym t.head)
    where
      held :
          (at : String) (key : Option s.Base64) (q : Bool) (txt : files.Text)
          (events : List (RunEvent p))
          → (files.read at ≡ some txt) × (files.parse_events txt ≡ some events)
          → (verify p s files at (some cp_path) key q).0 ≡ sound_code
          → IsChain p events × Attests p s cp key events
      held at key q txt events reads accepted =
          let (t1, es1, r1, q1, chain, cov) =
            (verify_iff p s files at (some cp_path) key q).0 accepted in
          let (t2, cp2, r2, q2, att) = cov in
          let one : es1 ≡ events = ground (arith, reads.0, reads.1) in
          let two : cp2 ≡ cp = ground (arith, c.0, c.1) in
          (
            subst (IsChain p) one chain,
            subst (λ x1. Attests p s x1 key events) two (subst (Attests p s cp2 key) one att),
          )
