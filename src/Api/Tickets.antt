-- ===== src/Api/Tickets.antt =====
-- `verify_ticket` of crates/tideline-server/src/api.rs: what a ticket that is accepted shows.
use tideline.Base.{
  ℕ, ◌<◌, ◌≡◌, inl, inr, sym, ap, ◌∙◌, String, none, some, List, arith, Option-cases, Bool-cases,
  as_bytes, dec_bytes, leb, if_pos, if_neg, some_cancel,
}
use tideline.Base.Json.{Value, index, as_str, as_u64}
use tideline.Api.Subscribe.{
  TicketCrates, split_once, claims, read_payload, check_mac, verify_ticket,
}

-- A payload that grants this stream and has not expired.
abbrev Grants : TicketCrates → ℕ → String → String → String → Type 0
Grants t now payload ns sid =
    (raw : List ℕ) × (v : Value) × (exp : ℕ) × (t.decode payload ≡ some raw)
    × (t.parse raw ≡ some v)
    × (as_str (index v "ns") ≡ some ns)
    × (as_str (index v "sid") ≡ some sid)
    × (as_u64 (index v "exp") ≡ some exp)
    × (now < exp)

-- A ticket for this stream, authenticated with the secret.
abbrev pub Signed : TicketCrates → ℕ → String → String → String → String → Type 0
Signed t now secret ticket ns sid =
    (payload : String) × (sig : String) × (split_once ticket ≡ some (payload, sig))
    × (t.decode sig ≡ some (t.hmac (as_bytes secret) (as_bytes payload)))
    × Grants t now payload ns sid

claims-Grants :
    (now : ℕ) (v : Value) (ns sid : String)
    → claims now v ≡ some (ns, sid)
    → (exp : ℕ) × (as_str (index v "ns") ≡ some ns)
      × (as_str (index v "sid") ≡ some sid)
      × (as_u64 (index v "exp") ≡ some exp)
      × (now < exp)
unfolding claims
claims-Grants now v ns sid h = elim (Option-cases (as_str (index v "ns"))) [
  | inl a ↦ absurd (ground (arith, a, h))
  | inr (n, a) ↦ elim (Option-cases (as_str (index v "sid"))) [
    | inl b ↦ absurd (ground (arith, a, b, h))
    | inr (m, b) ↦ elim (Option-cases (as_u64 (index v "exp"))) [
      | inl c ↦ absurd (ground (arith, a, b, c, h))
      | inr (exp, c) ↦ elim (Bool-cases (leb exp now)) [
        | inl d ↦ absurd (ground (arith, a, b, c, d, h))
        | inr d ↦
            let is : ◌≡◌ {A = String × String} (n, m) (ns, sid) =
              some_cancel (rw (a, b, c, d, claims) at h) in
            (exp, a ∙ ap (λ x. some x.0) is, b ∙ ap (λ x. some x.1) is, c, ground (arith, d))
      ]
    ]
  ]
]

read_payload-Grants :
    (t : TicketCrates) (now : ℕ) (payload ns sid : String)
    → read_payload t now payload ≡ some (ns, sid)
    → Grants t now payload ns sid
unfolding read_payload
read_payload-Grants t now payload ns sid h = elim (Option-cases (t.decode payload)) [
  | inl a ↦ absurd (ground (arith, a, h))
  | inr (raw, a) ↦ elim (Option-cases (t.parse raw)) [
    | inl b ↦ absurd (ground (arith, a, b, h))
    | inr (v, b) ↦
        let (exp, is_ns, is_sid, is_exp, before) =
          claims-Grants now v ns sid (rw (a, b, read_payload) at h) in
        (raw, v, exp, a, b, is_ns, is_sid, is_exp, before)
  ]
]

-- A ticket that is accepted is signed, and has not expired.
pub verify_ticket-Signed :
    (t : TicketCrates) (now : ℕ) (secret ticket ns sid : String)
    → verify_ticket t now secret ticket ≡ some (ns, sid)
    → Signed t now secret ticket ns sid
unfolding verify_ticket check_mac
verify_ticket-Signed t now secret ticket ns sid h = elim (Option-cases (split_once ticket)) [
  | inl a ↦ absurd (ground (arith, a, h))
  | inr ((payload, sig), a) ↦ elim (Option-cases (t.decode sig)) [
    | inl b ↦ absurd (ground (arith, a, b, h))
    | inr (s, b) ↦ elim (dec_bytes s (t.hmac (as_bytes secret) (as_bytes payload))) [
      | yes same ↦ (
        payload,
        sig,
        a,
        b ∙ ap some same,
        read_payload-Grants t now payload ns sid (
            sym (
              if_pos (dec_bytes s (t.hmac (as_bytes secret) (as_bytes payload))) same
                (read_payload t now payload) none)
            ∙ (rw (a, b, check_mac, verify_ticket) at h)),
      )
      | no n ↦ absurd (
          ground (
            arith,
            a,
            b,
            h,
            if_neg (dec_bytes s (t.hmac (as_bytes secret) (as_bytes payload))) n
                (read_payload t now payload) none,
          ))
    ]
  ]
]
