-- ===== src/Proto/Chain/Faults.antt =====
-- crates/tideline-proto/src/chain.rs: the errors of `verify_chain`.
use tideline.Base.{
  ℕ, suc, ◌+◌, ◌≡◌, ◌≢◌, ◌⊎◌, refl, List, [], ◌∷◌, ◌++◌, length, arith, inl, inr, ap, subst,
  ℕ_discrete, dec_bytes,
}
use tideline.Platform.{Platform}
use tideline.Proto.Kind.{kind_discrete, run_started}
use tideline.Proto.Digest.{Hash, zero_hash}
use tideline.Proto.Event.{RunEvent}
use tideline.Proto.Chain.{
  ChainError, err, empty, not_run_started, Checked-cases, check_event, check_from, verify_chain,
}
use tideline.Proto.Chain.Verify.{check_event-ok}
use tideline.Proto.Chain.Linked.{Linked, Fault, gap, relinked, altered, head_after, hash_of}

module _ (p : Platform) where
  -- The events before the one at fault, that event, and those behind it.
  pub record FaultIn (i : ℕ) (prev : Hash) (es : List (RunEvent p)) (x : ChainError) : Type 0 where
    pub before : List (RunEvent p)
    pub bad : RunEvent p
    pub behind : List (RunEvent p)
    pub parts : es ≡ before ++ bad ∷ behind
    pub sound : Linked p i prev before
    pub fault : Fault p (i + length before) (head_after p prev before) bad x

  check_event-Fault :
      (i : ℕ) (prev : Hash) (e : RunEvent p) (x : ChainError)
      → check_event p i prev e ≡ err x
      → Fault p i prev e x
  unfolding check_event
  check_event-Fault i prev e x h = elim (ℕ_discrete e.seq i) [
    | no a ↦ subst (Fault p i prev e) (ground arith) (gap a)
    | yes a ↦ elim (dec_bytes e.prev_hash prev) [
      | no b ↦ subst (Fault p i prev e) (ground arith) (relinked a b)
      | yes b ↦ elim (dec_bytes (hash_of p e prev) e.hash) [
        | no c ↦ subst (Fault p i prev e) (ground arith) (altered a b c)
        | yes c ↦ absurd (ground arith)
      ]
    ]
  ]

  later :
      {i : ℕ} {prev : Hash} {e : RunEvent p} {es : List (RunEvent p)} {x : ChainError}
      → (e.seq ≡ i) × (e.prev_hash ≡ prev) × (hash_of p e prev ≡ e.hash)
      → FaultIn (suc i) e.hash es x
      → FaultIn i prev (e ∷ es) x
  later {i} {prev} {e} {es} {x} h f = record {
    before = e ∷ f.before;
    bad = f.bad;
    behind = f.behind;
    parts = ap (◌∷◌ e) f.parts;
    sound = (h.0, h.1, h.2, f.sound);
    fault = subst (λ k. Fault p k (head_after p e.hash f.before) f.bad x) (omega arith) f.fault;
  }

  check_from-FaultIn :
      (i : ℕ) (prev : Hash) (es : List (RunEvent p)) (x : ChainError)
      → check_from p i prev es ≡ err x
      → FaultIn i prev es x
  unfolding check_from
  check_from-FaultIn i prev [] x h = absurd (ground arith)
  check_from-FaultIn i prev (e ∷ es) x h = elim (Checked-cases (check_event p i prev e)) [
    | inr (y, q) ↦
        let same : y ≡ x = ground arith in
        record {
          before = [];
          bad = e;
          behind = es;
          parts = refl;
          sound = tt;
          fault =
              subst (λ k. Fault p k prev e x) (omega arith)
                (subst (Fault p i prev e) same (check_event-Fault i prev e y q));
        }
    | inl (c, q) ↦
        let (a, b, d, r) = check_event-ok p i prev e c q in
        later (a, b, d) (check_from-FaultIn (suc i) e.hash es x (ground (arith, r)))
  ]

  -- The first event of a record, which is not empty.
  pub record Opens (es : List (RunEvent p)) : Type 0 where
    pub first : RunEvent p
    pub rest : List (RunEvent p)
    pub parts : es ≡ first ∷ rest

  -- A record that is refused is empty, and the error says so, or has a first event that is not
  -- `run_started`, and the error says so, or opens with `run_started` and splits into a sound part,
  -- one event with the fault that the error names, and the rest: the verifier names the first event
  -- at fault.
  pub verify_chain-FaultIn :
      (es : List (RunEvent p)) (x : ChainError)
      → verify_chain p es ≡ err x
      → ((es ≡ []) × (x ≡ empty))
        ⊎ ((o : Opens es) × (o.first.kind ≢ run_started) × (x ≡ not_run_started))
        ⊎ ((o : Opens es) × (o.first.kind ≡ run_started) × FaultIn 0 zero_hash es x)
  unfolding verify_chain
  verify_chain-FaultIn [] x h = inl (refl, ground arith)
  verify_chain-FaultIn (e ∷ es) x h = elim (kind_discrete e.kind run_started) [
    | no k ↦ inr (inl (record { first = e; rest = es; parts = refl }, k, ground arith))
    | yes k ↦ elim (Checked-cases (check_from p 0 zero_hash (e ∷ es))) [
      | inl (u, q) ↦ absurd (ground arith)
      | inr (y, q) ↦ inr (
          inr (
            record { first = e; rest = es; parts = refl },
            k,
            check_from-FaultIn 0 zero_hash (e ∷ es) x (ground arith),
          ))
    ]
  ]
