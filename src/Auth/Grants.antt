-- ===== src/Auth/Grants.antt =====
-- crates/tideline-server/src/tlr/auth.rs: when access is granted, and to which namespace.
use tideline.Base.{
  ◌≡◌, ◌⊎◌, ◌↔◌, inl, inr, refl, subst, sym, String, true, false, Option, none, some, arith,
  Bool-cases,
}
use tideline.Auth.{granted, AuthMode, is_none, wide_open, matches, resolve_read, resolve_write}

-- No credential of any kind is configured.
pub record IsOpen (mode : AuthMode) : Type 0 where
  pub publish_token : mode.publish_token ≡ none
  pub subscribe_token : mode.subscribe_token ≡ none
  pub cloud_verify : mode.cloud_verify ≡ false

-- The caller presents the token that is configured.
abbrev pub Presents : Option String → Option String → Type 0
Presents want presented = (w : String) × (want ≡ some w) × (presented ≡ some w)

wide_open-IsOpen : (mode : AuthMode) → wide_open mode ≡ true → IsOpen mode
unfolding wide_open is_none
wide_open-IsOpen mode h = record {
  publish_token = ground (arith, h);
  subscribe_token = ground (arith, h);
  cloud_verify = ground (arith, h);
}

IsOpen-wide_open : (mode : AuthMode) → IsOpen mode → wide_open mode ≡ true
unfolding wide_open is_none
IsOpen-wide_open mode h = ground (arith, h.publish_token, h.subscribe_token, h.cloud_verify)

matches-Presents :
    (want presented : Option String) → matches want presented ≡ true → Presents want presented
unfolding matches
matches-Presents none presented h = cc
matches-Presents (some w) none h = cc
matches-Presents (some w) (some p) h = (w, refl, ground (arith, h))

Presents-matches :
    (want presented : Option String) → Presents want presented → matches want presented ≡ true
unfolding matches
Presents-matches want presented (w, a, b) = ground (arith, a, b)

read_granted :
    (mode : AuthMode) (presented : Option String) (ns : String)
    → resolve_read mode presented none ≡ granted ns
    → (ns ≡ "")
      × ((wide_open mode ≡ true)
          ⊎ ((matches mode.subscribe_token presented ≡ true)
              ⊎ (matches mode.publish_token presented ≡ true)))
unfolding resolve_read
read_granted mode presented ns h = elim (Bool-cases (wide_open mode)) [
  | inl a ↦ (ground (arith, h), inl a)
  | inr a ↦ elim (Bool-cases (matches mode.subscribe_token presented)) [
    | inl b ↦ (ground (arith, h), inr (inl b))
    | inr b ↦ elim (Bool-cases (matches mode.publish_token presented)) [
      | inl c ↦ (ground (arith, h), inr (inr c))
      | inr c ↦ absurd (ground (arith, h))
    ]
  ]
]

read_allowed :
    (mode : AuthMode) (presented : Option String)
    → (wide_open mode ≡ true)
      ⊎ ((matches mode.subscribe_token presented ≡ true)
          ⊎ (matches mode.publish_token presented ≡ true))
    → resolve_read mode presented none ≡ granted ""
unfolding resolve_read
read_allowed mode presented (inl a) = ground (arith, a)
read_allowed mode presented (inr (inl b)) = ground (arith, b)
read_allowed mode presented (inr (inr c)) = ground (arith, c)

-- Without a verified tenant, a read is granted exactly when nothing at all is configured, or the
-- caller presents the subscribe token or the publish token; and then for the namespace of the server's
-- owner, never for one that the caller names.
pub resolve_read_iff :
    (mode : AuthMode) (presented : Option String) (ns : String)
    → (resolve_read mode presented none ≡ granted ns) ↔ (
        (ns ≡ "")
        × (IsOpen mode
            ⊎ (Presents mode.subscribe_token presented ⊎ Presents mode.publish_token presented)))
resolve_read_iff mode presented ns = (
  λ h.
      let (e, why) = read_granted mode presented ns h in
      (
        e,
        elim why [
          | inl a ↦ inl (wide_open-IsOpen mode a)
          | inr (inl b) ↦ inr (inl (matches-Presents mode.subscribe_token presented b))
          | inr (inr c) ↦ inr (inr (matches-Presents mode.publish_token presented c))
        ],
      ),
  λ (e, why).
      subst (λ n. resolve_read mode presented none ≡ granted n) (sym e)
        (read_allowed mode presented (elim why [
          | inl a ↦ inl (IsOpen-wide_open mode a)
          | inr (inl b) ↦ inr (inl (Presents-matches mode.subscribe_token presented b))
          | inr (inr c) ↦ inr (inr (Presents-matches mode.publish_token presented c))
        ])),
)

-- A caller who may write may read what it wrote, in the same namespace.
pub resolve_write_reads :
    (mode : AuthMode) (presented : Option String) (ns : String)
    → resolve_write mode presented ≡ granted ns
    → resolve_read mode presented none ≡ granted ns
unfolding resolve_write resolve_read
resolve_write_reads mode presented ns h = ground (arith, h)
