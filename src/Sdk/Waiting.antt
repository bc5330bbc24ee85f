-- ===== src/Sdk/Waiting.antt =====
-- `await_gate` of crates/tideline-sdk/src/run.rs: polling a gate until it is decided.
use tideline.Base.{
  ℕ, zero, suc, ◌+◌, ◌*◌, ◌≤◌, ◌<◌, ◌≡◌, refl, min, true, false, subst, ◌⊎◌, inl, inr, Option-cases,
  none, some, List, [], ◌∷◌, length, arith,
}
use tideline.Sdk.{
  Fetched, ok, err, protocol, Gate, Decision, Resolution, is_pending, decided, back_off, await_from,
  await_gate,
}

-- The first `n` answers show a gate that is pending.
abbrev pub PendingUntil : (ℕ → Fetched Gate) → ℕ → ℕ → Type 0
PendingUntil approval i zero = Unit
PendingUntil approval i (suc n) =
    ((gate : Gate) × (approval i ≡ ok gate) × (is_pending gate ≡ true))
    × PendingUntil approval (suc i) n

-- The sleeps of `await_gate`: each but the first is twice the one before it, and none is longer than
-- five seconds.
abbrev pub BacksOff : ℕ → List ℕ → Type 0
BacksOff d [] = Unit
BacksOff d (e ∷ es) = (e ≡ d) × (e ≤ 5000) × BacksOff (min (d * 2) 5000) es

await_from-decided :
    (approval : ℕ → Fetched Gate) (seq n fuel i delay : ℕ) (gate : Gate)
    → PendingUntil approval i n
    → approval (i + n) ≡ ok gate
    → is_pending gate ≡ false
    → n < fuel
    → delay ≤ 5000
    → (delays : List ℕ) × (await_from approval seq fuel i delay ≡ some (decided seq gate, delays))
      × (length delays ≡ n)
      × BacksOff delay delays
unfolding await_from back_off
await_from-decided approval seq n zero i delay gate h at end enough short = absurd (omega arith)
await_from-decided approval seq zero (suc fuel) i delay gate h at end enough short =
    let here : approval i ≡ ok gate = subst (λ k. approval k ≡ ok gate) (omega arith) at in
    ([], ground (arith, here, end), refl, tt)
await_from-decided approval seq (suc n) (suc fuel) i delay gate ((g, first, waits), rest) at end
      enough short =
    let (delays, result, count, backs) =
      await_from-decided approval seq n fuel (suc i) (back_off delay) gate rest
        (subst (λ k. approval k ≡ ok gate) (omega arith) at) end (omega arith) (omega arith) in
    (
      delay ∷ delays,
      ground (arith, first, waits, result),
      omega (arith, count),
      (refl, short, backs),
    )

-- What a gate that is no longer pending comes to: its decision, with its reviewer, note and whether the
-- reviewer was attested, or an error when it carries no decision.
abbrev pub Answers : ℕ → Gate → Fetched Resolution → Type 0
Answers seq gate res =
    ((d : Decision) × (gate.decision ≡ some d)
      × (res
          ≡ ok (record {
            seq = seq;
            decision = d;
            reviewer = gate.reviewer;
            note = gate.note;
            attested = gate.attested;
          })))
    ⊎ ((gate.decision ≡ none) × (res ≡ err (protocol "resolved gate carries no decision")))

decided-Answers : (seq : ℕ) (gate : Gate) → Answers seq gate (decided seq gate)
unfolding decided
decided-Answers seq gate = elim (Option-cases gate.decision) [
  | inl a ↦ inr (a, ground (arith, a))
  | inr (d, a) ↦ inl (d, a, ground (arith, a))
]

-- When the gate is no longer pending at the `n`th poll, counted from 0, `await_gate` ends there, after
-- `n` sleeps, the first of 250 milliseconds and each of the others twice the one before it but at most
-- five seconds, and gives the gate's decision, with its reviewer, its note and whether the reviewer was
-- attested, or an error if the gate carries no decision.
pub await_gate-decided :
    (approval : ℕ → Fetched Gate) (seq n fuel : ℕ) (gate : Gate)
    → PendingUntil approval 0 n
    → approval n ≡ ok gate
    → is_pending gate ≡ false
    → n < fuel
    → (res : Fetched Resolution) × (delays : List ℕ) × (await_gate approval seq fuel
        ≡ some (res, delays))
      × Answers seq gate res
      × (length delays ≡ n)
      × BacksOff 250 delays
unfolding await_gate
await_gate-decided approval seq n fuel gate pending at end enough =
    let (delays, result, count, backs) =
      await_from-decided approval seq n fuel 0 250 gate pending
        (subst (λ k. approval k ≡ ok gate) (omega arith) at) end enough (omega arith) in
    (decided seq gate, delays, result, decided-Answers seq gate, count, backs)
