-- ===== src/Api/Verifier.antt =====
-- `KeyVerifier` of crates/tideline-server/src/api.rs: how old an answer of the control plane may be.
use tideline.Base.{
  ℕ, ◌+◌, ◌<◌, ◌≡◌, ◌⊎◌, inl, inr, refl, sym, ap, ◌∙◌, subst, String, Option, some, List, [], ◌∷◌,
  ◌++◌, arith, Option-cases, Bool-cases, ltb, ltb→lt, dec_text, append_assoc, append-nil,
  some_cancel,
}
use tideline.Base.Table
use tideline.Base.Table.{Table, get-insert}
use tideline.Base.{none}
use tideline.Proto.Canon.{unwrap_or}
use tideline.Events.{Tenant}
use tideline.Api.{
  Env, Plane, refuses, confirms, VerifyResp, tenant_in, KeyVerifier, ttl, ask, verify,
}

-- Questions to the verifier, one after the other.
unfoldable pub after : KeyVerifier → List (Env × String) → KeyVerifier
after cache [] = cache
after cache ((env, token) ∷ rest) = after (verify cache env token).1 rest

-- What the control plane says of a token: the answer names this tenant, where a user that is left out is
-- the empty name; or it cannot be read, and the tenant is the one without any name.
abbrev pub Says : Plane → Tenant → Type 0
Says plane t =
    ((r : VerifyResp) × (plane ≡ confirms (some r))
      × (t.user_id ≡ unwrap_or "" r.user_id)
      × (t.org_id ≡ r.org_id))
    ⊎ ((plane ≡ confirms none) × (t.user_id ≡ "") × (t.org_id ≡ none))

tenant_in-Says :
    (plane : Plane) (r : Option VerifyResp) → plane ≡ confirms r → Says plane (tenant_in r)
unfolding tenant_in
tenant_in-Says plane none h = inr (h, refl, refl)
tenant_in-Says plane (some r) h = inl (r, h, refl, refl)

-- One of the questions was put to the control plane for this token, and the answer, which came at the
-- time `at`, says this tenant.
abbrev pub Confirmed : List (Env × String) → String → Tenant → ℕ → Type 0
Confirmed asked token t at =
    (front : List (Env × String)) × (back : List (Env × String)) × (env : Env) × (asked
      ≡ front ++ (env, token) ∷ back)
    × Says (env.plane token) t
    × (at ≡ env.answered)

Confirmed-more :
    (asked more : List (Env × String)) (token : String) (t : Tenant) (at : ℕ)
    → Confirmed asked token t at
    → Confirmed (asked ++ more) token t at
Confirmed-more asked more token t at (front, back, env, parts, says, when) = (
  front,
  back ++ more,
  env,
  ap (λ l. l ++ more) parts ∙ append_assoc front ((env, token) ∷ back) more,
  says,
  when,
)

-- What the cache holds was confirmed, and its time ends a minute later.
abbrev Backed : List (Env × String) → KeyVerifier → Type 0
Backed asked cache =
    (token : String) (t : Tenant) (exp : ℕ)
    → Table.get dec_text token cache ≡ some (t, exp)
    → (at : ℕ) × (exp ≡ at + 60000) × Confirmed asked token t at

Plane-cases : (a : Plane) → (a ≡ refuses) ⊎ ((r : Option VerifyResp) × (a ≡ confirms r))
Plane-cases refuses = inl refl
Plane-cases (confirms r) = inr (r, refl)

Confirmed-last :
    (asked : List (Env × String)) (env : Env) (token : String) (r : Option VerifyResp)
    → env.plane token ≡ confirms r
    → Confirmed (asked ++ (env, token) ∷ []) token (tenant_in r) env.answered
Confirmed-last asked env token r h =
    (asked, [], env, refl, tenant_in-Says (env.plane token) r h, refl)

ask-Backed :
    (asked : List (Env × String)) (cache : KeyVerifier) (env : Env) (token : String)
    → Backed asked cache
    → Backed (asked ++ (env, token) ∷ []) (ask cache env token).1
unfolding ask Table.get tenant_in
ask-Backed asked cache env token h = elim (Plane-cases (env.plane token)) [
  | inl e ↦ rw (e, ask) (λ tok t exp q. kept tok t exp q)
  | inr (r, e) ↦
      rw (e, ask)
        (λ tok t exp q. elim (dec_text token tok) [
          | yes same ↦ fresh r e tok t exp same q
          | no n ↦ kept tok t exp (
              sym (Table.get-insert_ne dec_text token tok (tenant_in r, env.answered + ttl) cache n)
              ∙ q)
        ])
]
  where
    kept :
        (tok : String) (t : Tenant) (exp : ℕ)
        → Table.get dec_text tok cache ≡ some (t, exp)
        → (at : ℕ) × (exp ≡ at + 60000) × Confirmed (asked ++ (env, token) ∷ []) tok t at
    kept tok t exp q =
        let (at, e, c) = h tok t exp q in
        (at, e, Confirmed-more asked ((env, token) ∷ []) tok t at c)

    fresh :
        (r : Option VerifyResp)
        → env.plane token ≡ confirms r
        → (tok : String) (t : Tenant) (exp : ℕ) → token ≡ tok
        → Table.get dec_text tok
            (Table.insert dec_text token (tenant_in r, env.answered + ttl) cache)
          ≡ some (t, exp)
        → (at : ℕ) × (exp ≡ at + 60000) × Confirmed (asked ++ (env, token) ∷ []) tok t at
    fresh r e tok t exp same q =
        let value : Tenant × ℕ = (tenant_in r, env.answered + ttl) in
        let q' =
          subst
            (λ k. Table.get dec_text k (Table.insert dec_text token value cache) ≡ some (t, exp))
            (sym same) q in
        let is : value ≡ (t, exp) =
          some_cancel (sym (Table.get-insert_self dec_text token value cache) ∙ q') in
        (
          env.answered,
          sym (ap (λ x. x.1) is),
          subst (λ k. Confirmed (asked ++ (env, token) ∷ []) k t env.answered) same
              (subst (λ x. Confirmed (asked ++ (env, token) ∷ []) token x env.answered)
                (ap (λ x. x.0) is) (Confirmed-last asked env token r e)),
        )

verify-Backed :
    (asked : List (Env × String)) (cache : KeyVerifier) (env : Env) (token : String)
    → Backed asked cache
    → Backed (asked ++ (env, token) ∷ []) (verify cache env token).1
unfolding verify
verify-Backed asked cache env token h = elim (Option-cases (Table.get dec_text token cache)) [
  | inl e ↦ rw (e, verify) (ask-Backed asked cache env token h)
  | inr ((t, exp), e) ↦ elim (Bool-cases (ltb env.now exp)) [
    | inr c ↦ rw (e, c, verify) (ask-Backed asked cache env token h)
    | inl c ↦
        rw (e, c, verify)
          (λ tok u end q.
            let (at, w, k) = h tok u end q in
            (at, w, Confirmed-more asked ((env, token) ∷ []) tok u at k))
  ]
]

after-Backed :
    (asked more : List (Env × String)) (cache : KeyVerifier)
    → Backed asked cache
    → Backed (asked ++ more) (after cache more)
unfolding after
after-Backed asked [] cache h = subst (λ l. Backed l cache) (sym (append-nil asked)) h
after-Backed asked ((env, token) ∷ rest) cache h =
    subst (λ l. Backed l (after (verify cache env token).1 rest))
      (append_assoc asked ((env, token) ∷ []) rest)
      (after-Backed (asked ++ (env, token) ∷ []) rest (verify cache env token).1
        (verify-Backed asked cache env token h))

-- A tenant that the verifier gives for a token, after any questions before this one, is what the control
-- plane said of this very token: just now, or in an answer less than sixty seconds old. It said so by
-- naming the tenant, or by a success that cannot be read, which gives the tenant without a name.
pub verify-Confirmed :
    (asked : List (Env × String)) (env : Env) (token : String) (t : Tenant)
    → (verify (after [] asked) env token).0 ≡ some t
    → Says (env.plane token) t ⊎ ((at : ℕ) × (env.now < at + 60000) × Confirmed asked token t at)
unfolding verify ask Table.get
verify-Confirmed asked env token t h =
    let cache = after [] asked in
    let backed : Backed asked cache =
      after-Backed [] asked [] (λ tok u exp q. absurd (ground arith)) in
    elim (Option-cases (Table.get dec_text token cache)) [
      | inl e ↦ inl (asked_now (rw (e, verify) at h))
      | inr ((u, exp), e) ↦ elim (Bool-cases (ltb env.now exp)) [
        | inr c ↦ inl (asked_now (rw (e, c, verify) at h))
        | inl c ↦
            let (at, w, k) = backed token u exp e in
            let same : u ≡ t = some_cancel (rw (e, c, verify) at h) in
            inr (
              at,
              omega (arith, ltb→lt env.now exp c, w),
              subst (λ x. Confirmed asked token x at) same k,
            )
      ]
    ]
  where
    asked_now : (ask (after [] asked) env token).0 ≡ some t → Says (env.plane token) t
    asked_now q = elim (Plane-cases (env.plane token)) [
      | inl e ↦ absurd (ground (arith, e, q))
      | inr (r, e) ↦
          subst (Says (env.plane token)) (some_cancel (rw (e, ask) at q))
            (tenant_in-Says (env.plane token) r e)
    ]
