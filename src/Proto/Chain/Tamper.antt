-- ===== src/Proto/Chain/Tamper.antt =====
-- crates/tideline-proto/src/chain.rs: two records with one head.
use tideline.Base.{
  ℕ, suc, ◌≡◌, ◌⊎◌, refl, List, [], ◌∷◌, map, length, arith, inl, inr, sym, ap, ◌∙◌, All,
  append-eq_parts,
}
use tideline.Platform.{Platform, IsPlatform}
use tideline.Proto.Digest.{Hash, zero_hash}
use tideline.Proto.Canon
use tideline.Proto.Canon.{canon}
use tideline.Proto.Canon.Layout.{
  Collision, IsCore, SameValues, canon-SameValues, length-canon, sha256_cancel,
}
use tideline.Proto.Event.{RunEvent, core}
use tideline.Proto.Chain.{ChainOk, ok, verify_chain}
use tideline.Proto.Chain.Linked.{Linked, head_after, head_after-last_or, last_or-seq, hash_of}
use tideline.Proto.Chain.Verify.{verify_chain_iff}

abbrev pub canons : (p : Platform) → List (RunEvent p) → List (List ℕ)
canons p = map (λ e. canon p (core p e))

abbrev pub AllCore : (p : Platform) → List (RunEvent p) → Type 0
AllCore p = All (λ e. IsCore (core p e))

module _ (p : Platform) (laws : IsPlatform p) where
  hash_of_cancel :
      (e f : RunEvent p) (prev prev' : Hash)
      → IsCore (core p e)
      → IsCore (core p f)
      → hash_of p e prev ≡ hash_of p f prev'
      → ((canon p (core p e) ≡ canon p (core p f)) × (prev ≡ prev')) ⊎ Collision p
  unfolding Canon.hash
  hash_of_cancel e f prev prev' h k eq = elim (sha256_cancel p laws _ _ eq) [
    | inr c ↦ inr c
    | inl same ↦ inl (
        append-eq_parts _ _ _ _
          (length-canon p laws (core p e) h ∙ sym (length-canon p laws (core p f) k)) same)
  ]

  pub Linked-cancel :
      (i : ℕ) (prev prev' : Hash) (es fs : List (RunEvent p))
      → Linked p i prev es
      → Linked p i prev' fs
      → AllCore p es
      → AllCore p fs
      → length es ≡ length fs
      → head_after p prev es ≡ head_after p prev' fs
      → ((canons p es ≡ canons p fs) × (prev ≡ prev')) ⊎ Collision p
  Linked-cancel i prev prev' [] [] a b c d len h = inl (refl, h)
  Linked-cancel i prev prev' [] (f ∷ fs) a b c d len h = absurd (omega arith)
  Linked-cancel i prev prev' (e ∷ es) [] a b c d len h = absurd (omega arith)
  Linked-cancel i prev prev' (e ∷ es) (f ∷ fs) a b c d len h =
      elim (Linked-cancel (suc i) e.hash f.hash es fs a.3 b.3 c.1 d.1 (omega arith) h) [
        | inr x ↦ inr x
        | inl (rest, same) ↦ elim (hash_of_cancel e f prev prev' c.0 d.0 (a.2 ∙ same ∙ sym b.2)) [
          | inr x ↦ inr x
          | inl (first, before) ↦ inl (cc (first, rest), before)
        ]
      ]

  -- Event by event, the same place, time and kind, and the same bytes in each field that both have.
  abbrev pub SameEvents : List (RunEvent p) → List (RunEvent p) → Type 0
  SameEvents [] [] = Unit
  SameEvents [] (f ∷ fs) = ⊥
  SameEvents (e ∷ es) [] = ⊥
  SameEvents (e ∷ es) (f ∷ fs) = SameValues (core p e) (core p f) × SameEvents es fs

  heads_of : List (List ℕ) → List ℕ
  heads_of [] = []
  heads_of (b ∷ bs) = b

  tails_of : List (List ℕ) → List (List ℕ)
  tails_of [] = []
  tails_of (b ∷ bs) = bs

  canons-SameEvents :
      (es fs : List (RunEvent p))
      → AllCore p es
      → AllCore p fs
      → length es ≡ length fs
      → canons p es ≡ canons p fs
      → SameEvents es fs ⊎ Collision p
  unfolding heads_of tails_of
  canons-SameEvents [] [] c d len h = inl tt
  canons-SameEvents [] (f ∷ fs) c d len h = absurd (omega arith)
  canons-SameEvents (e ∷ es) [] c d len h = absurd (omega arith)
  canons-SameEvents (e ∷ es) (f ∷ fs) c d len h =
      elim (canon-SameValues p laws (core p e) (core p f) c.0 d.0 (ap heads_of h)) [
        | inr k ↦ inr k
        | inl same ↦ elim (canons-SameEvents es fs c.1 d.1 (omega arith) (ap tails_of h)) [
          | inr k ↦ inr k
          | inl rest ↦ inl (same, rest)
        ]
      ]

  -- Two records that verify, with the same place and hash of their last events, have equally many
  -- events, and event by event the same canonical bytes, the same place, time and kind, and the same
  -- bytes in each of the four fields that both have; or they show a collision of SHA-256. A field that
  -- one of the records has erased or left out is not compared.
  pub verify_chain_cancel :
      (es fs : List (RunEvent p)) (r s : ChainOk)
      → AllCore p es
      → AllCore p fs
      → verify_chain p es ≡ ok r
      → verify_chain p fs ≡ ok s
      → r.head_seq ≡ s.head_seq
      → r.head_hash ≡ s.head_hash
      → ((length es ≡ length fs) × (canons p es ≡ canons p fs) × SameEvents es fs) ⊎ Collision p
  verify_chain_cancel [] fs r s c d a b q h = absurd ((verify_chain_iff p [] r).0 a).0
  verify_chain_cancel (e ∷ es) [] r s c d a b q h = absurd ((verify_chain_iff p [] s).0 b).0
  verify_chain_cancel (e ∷ es) (f ∷ fs) r s c d a b q h =
      let (x, y) = (verify_chain_iff p (e ∷ es) r).0 a in
      let (u, v) = (verify_chain_iff p (f ∷ fs) s).0 b in
      let heads : head_after p zero_hash (e ∷ es) ≡ head_after p zero_hash (f ∷ fs) =
        cc (head_after-last_or p zero_hash e es, head_after-last_or p zero_hash f fs, y.2, v.2) in
      let len : length (e ∷ es) ≡ length (f ∷ fs) =
        omega (
          arith,
          y.1,
          v.1,
          last_or-seq p 0 zero_hash e es x.1,
          last_or-seq p 0 zero_hash f fs u.1,
        ) in
      elim (Linked-cancel 0 zero_hash zero_hash (e ∷ es) (f ∷ fs) x.1 u.1 c d len heads) [
        | inr k ↦ inr k
        | inl (same, _) ↦ elim (canons-SameEvents (e ∷ es) (f ∷ fs) c d len same) [
          | inr k ↦ inr k
          | inl values ↦ inl (len, same, values)
        ]
      ]
