-- ===== src/Proto/Chain/Verify.antt =====
-- crates/tideline-proto/src/chain.rs: the records that `verify_chain` accepts.
use tideline.Base.{ℕ, suc, ◌≡◌, ◌↔◌, refl, List, [], ◌∷◌, ◌++◌, arith, inl, inr}
use tideline.Platform.{Platform}
use tideline.Proto.Kind.{kind_discrete, run_started}
use tideline.Proto.Digest.{Hash, zero_hash}
use tideline.Proto.Event.{RunEvent}
use tideline.Proto.Chain.{
  Checked, ChainOk, ok, Checked-cases, check_event, check_from, verify_chain, summary,
}
use tideline.Proto.Chain.Linked.{Linked, Linked-append, IsChain, Describes, hash_of}

module _ (p : Platform) where
  pub check_event-ok :
      (i : ℕ) (prev : Hash) (e : RunEvent p) (h : Hash)
      → check_event p i prev e ≡ ok h
      → (e.seq ≡ i) × (e.prev_hash ≡ prev) × (hash_of p e prev ≡ e.hash) × (h ≡ e.hash)
  unfolding check_event
  check_event-ok i prev e h eq = ground arith

  check_event_fits :
      (i : ℕ) (prev : Hash) (e : RunEvent p)
      → e.seq ≡ i
      → e.prev_hash ≡ prev
      → hash_of p e prev ≡ e.hash
      → check_event p i prev e ≡ ok e.hash
  unfolding check_event
  check_event_fits i prev e a b c = ground arith

  pub check_from-Linked :
      (i : ℕ) (prev : Hash) (es : List (RunEvent p))
      → check_from p i prev es ≡ ok tt
      → Linked p i prev es
  check_from-Linked i prev [] h = tt
  check_from-Linked i prev (e ∷ es) h = elim (Checked-cases (check_event p i prev e)) [
    | inl (c, q) ↦
        let (a, b, d, r) = check_event-ok i prev e c q in
        let step : check_from p (suc i) c es ≡ ok tt =
          unfold check_from in rw (q, check_from) at h in
        (a, b, d, check_from-Linked (suc i) e.hash es (rw r at step))
    | inr (x, q) ↦
        let bad : Checked.err x ≡ ok tt = unfold check_from in rw (q, check_from) at h in cc
  ]

  pub Linked-check_from :
      (i : ℕ) (prev : Hash) (es : List (RunEvent p))
      → Linked p i prev es
      → check_from p i prev es ≡ ok tt
  unfolding check_from
  Linked-check_from i prev [] h = refl
  Linked-check_from i prev (e ∷ es) h =
      rw (check_event_fits i prev e h.0 h.1 h.2, check_from)
        (Linked-check_from (suc i) e.hash es h.3)

  verify_chain-IsChain :
      (es : List (RunEvent p)) (r : ChainOk)
      → verify_chain p es ≡ ok r
      → IsChain p es × Describes p es r
  unfolding verify_chain
  verify_chain-IsChain [] r h = cc
  verify_chain-IsChain (e ∷ es) r h = elim (kind_discrete e.kind run_started) [
    | yes k ↦ elim (Checked-cases (check_from p 0 zero_hash (e ∷ es))) [
      | inl (u, q) ↦ ((k, check_from-Linked 0 zero_hash (e ∷ es) q), ground arith)
      | inr (x, q) ↦ absurd (ground arith)
    ]
    | no k ↦ absurd (ground arith)
  ]

  IsChain-verify_chain :
      (es : List (RunEvent p)) (r : ChainOk)
      → IsChain p es × Describes p es r
      → verify_chain p es ≡ ok r
  unfolding verify_chain
  IsChain-verify_chain [] r h = absurd h.0
  IsChain-verify_chain (e ∷ es) r h = ground (arith, Linked-check_from 0 zero_hash (e ∷ es) h.0.1)

  -- The verifier accepts a record, with a report, exactly when the record is a sound chain and the
  -- report gives its length, the place and hash of its last event, and whether that one is
  -- `run_finished`.
  pub verify_chain_iff :
      (es : List (RunEvent p)) (r : ChainOk)
      → (verify_chain p es ≡ ok r) ↔ (IsChain p es × Describes p es r)
  verify_chain_iff es r = (verify_chain-IsChain es r, IsChain-verify_chain es r)

  pub verify_chain_total :
      (es : List (RunEvent p)) → IsChain p es → (r : ChainOk) × (verify_chain p es ≡ ok r)
  unfolding verify_chain
  verify_chain_total [] h = absurd h
  verify_chain_total (e ∷ es) h =
      (summary p e es, ground (arith, Linked-check_from 0 zero_hash (e ∷ es) h.1))

  -- The first events of a record that verifies verify too, however many are cut off behind them: the
  -- chain alone shows no missing tail.
  pub verify_chain_prefix :
      (e : RunEvent p) (es cut : List (RunEvent p)) (r : ChainOk)
      → verify_chain p ((e ∷ es) ++ cut) ≡ ok r
      → (s : ChainOk) × (verify_chain p (e ∷ es) ≡ ok s)
  verify_chain_prefix e es cut r h =
      let (c, _) = (verify_chain_iff ((e ∷ es) ++ cut) r).0 h in
      verify_chain_total (e ∷ es) (c.0, (Linked-append p 0 zero_hash (e ∷ es) cut c.1).0)
