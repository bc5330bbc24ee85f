-- ===== src/Approvals/Gates.antt =====
-- `project` of crates/tideline-server/src/tlr/approvals.rs, and each gate by itself over the events.
use tideline.Base.{
  ℕ, suc, ◌≤◌, ◌<◌, ◌≡◌, ◌≢◌, refl, sym, ap, ap₂, ◌⊎◌, ◌∙◌, subst, none, some, List, [], ◌∷◌, ◌++◌,
  map, ite, dec_text, ◌==◌, ◌&&◌, if◌then◌else◌, arith, append_assoc, append-nil, All, All-append,
  Option-cases, inl, inr,
}
use mathlib.Core.List.{map-append}
use tideline.Base.Json.{Value, index, as_str, as_u64}
use tideline.Platform.{Platform}
use tideline.Proto.Kind.{kind_discrete, decision}
use tideline.Proto.Event.{RunEvent}
use tideline.Approvals.{
  Gate, Decision, resolved, is_pending, and_then, parse, meta, opened, decided, change_pending,
  resolve_in, observe, project_from, project, requested_name, resolved_name,
}

module _ (p : Platform) where
  -- What an event that resolves does to one gate.
  unfoldable pub advance_by : Value → Gate → Gate
  advance_by m g = elim (as_u64 (index m "target_seq")) [
    | none ↦ g
    | some target ↦ elim (and_then (as_str (index m "decision")) parse) [
      | none ↦ g
      | some d ↦ if g.seq == target && is_pending g.state then decided p m d g else g
    ]
  ]

  -- What an event does to one gate that is open before it.
  unfoldable pub advance : RunEvent p → Gate → Gate
  advance e g =
      ite (kind_discrete e.kind decision)
        (elim e.name [
          | none ↦ g
          | some n ↦
              ite (dec_text n requested_name) g
                (ite (dec_text n resolved_name) (advance_by (meta p e) g) g)
        ])
        g

  -- The gate that an event opens, if it does.
  unfoldable pub opens : RunEvent p → List Gate
  opens e =
      ite (kind_discrete e.kind decision)
        (elim e.name [ none ↦ [] | some n ↦ ite (dec_text n requested_name) (opened p e ∷ []) [] ])
        []

  -- What becomes of one gate, over the events behind its request.
  unfoldable pub outcome : Gate → List (RunEvent p) → Gate
  outcome g [] = g
  outcome g (e ∷ es) = outcome (advance e g) es

  -- The gates of a record, each by itself.
  unfoldable pub gates_of : List (RunEvent p) → List Gate
  gates_of [] = []
  gates_of (e ∷ es) = map (λ g. outcome g es) (opens e) ++ gates_of es

  -- No two gates have the same place.
  abbrev pub Apart : List Gate → Type 0
  Apart [] = Unit
  Apart (g ∷ gs) = All (λ h. g.seq ≢ h.seq) gs × Apart gs

  -- Each event stands behind those before it.
  abbrev pub Rising : ℕ → List (RunEvent p) → Type 0
  Rising n [] = Unit
  Rising n (e ∷ es) = (n ≤ e.seq) × Rising (suc e.seq) es

  abbrev touch : ℕ → (Gate → Gate) → Gate → Gate
  touch target change g = if g.seq == target && is_pending g.state then change g else g

  touch_others :
      (target : ℕ) (change : Gate → Gate) (g : Gate) (gs : List Gate)
      → g.seq ≡ target
      → All (λ h. g.seq ≢ h.seq) gs
      → map (touch target change) gs ≡ gs
  touch_others target change g [] e h = refl
  touch_others target change g (x ∷ xs) e h =
      ground (arith, touch_others target change g xs e h.1, h.0)

  -- Where places differ, changing the first match is changing each match.
  change_pending-map :
      (target : ℕ) (change : Gate → Gate) (gs : List Gate)
      → Apart gs
      → change_pending p target change gs ≡ map (touch target change) gs
  unfolding change_pending
  change_pending-map target change [] h = refl
  change_pending-map target change (g ∷ gs) h =
      ground (arith, change_pending-map target change gs h.1, touch_others target change g gs, h.0)

  -- The three sorts of events that `project` tells apart.
  data Turn (e : RunEvent p) : Type 0 where
    ignored :
        ((gs : List Gate) → observe p gs e ≡ gs)
        → ((g : Gate) → advance e g ≡ g)
        → opens e ≡ []
        → Turn e
    requests :
        ((gs : List Gate) → observe p gs e ≡ gs ++ opened p e ∷ [])
        → ((g : Gate) → advance e g ≡ g)
        → opens e ≡ opened p e ∷ []
        → Turn e
    resolves :
        ((gs : List Gate) → observe p gs e ≡ resolve_in p (meta p e) gs)
        → ((g : Gate) → advance e g ≡ advance_by (meta p e) g)
        → opens e ≡ []
        → Turn e

  turn : (e : RunEvent p) → Turn e
  unfolding observe advance opens
  turn e = elim (kind_discrete e.kind decision) [
    | no a ↦ ignored (λ gs. ground arith) (λ g. ground arith) (ground arith)
    | yes a ↦ elim (Option-cases e.name) [
      | inl b ↦ ignored (λ gs. ground arith) (λ g. ground arith) (ground arith)
      | inr (n, b) ↦ elim (dec_text n requested_name) [
        | yes c ↦ requests (λ gs. ground arith) (λ g. ground arith) (ground arith)
        | no c ↦ elim (dec_text n resolved_name) [
          | yes d ↦ resolves (λ gs. ground arith) (λ g. ground arith) (ground arith)
          | no d ↦ ignored (λ gs. ground arith) (λ g. ground arith) (ground arith)
        ]
      ]
    ]
  ]

  map_same : (f : Gate → Gate) (gs : List Gate) → ((g : Gate) → f g ≡ g) → map f gs ≡ gs
  map_same f [] h = refl
  map_same f (g ∷ gs) h = rw (h g) (ap (λ rest. g ∷ rest) (map_same f gs h))

  map_ext {ℓ} :
      {A : Type ℓ} (f f' : A → Gate) (xs : List A) → ((x : A) → f x ≡ f' x) → map f xs ≡ map f' xs
  map_ext f f' [] h = refl
  map_ext f f' (x ∷ xs) h = rw (h x) (ap (λ rest. f' x ∷ rest) (map_ext f f' xs h))

  map_twice : (f f' : Gate → Gate) (gs : List Gate) → map f' (map f gs) ≡ map (λ g. f' (f g)) gs
  map_twice f f' [] = refl
  map_twice f f' (g ∷ gs) = ap (λ rest. f' (f g) ∷ rest) (map_twice f f' gs)

  resolve_in-map :
      (m : Value) (gs : List Gate) → Apart gs → resolve_in p m gs ≡ map (advance_by m) gs
  unfolding resolve_in advance_by
  resolve_in-map m gs h = elim (Option-cases (as_u64 (index m "target_seq"))) [
    | inl a ↦
        let same : resolve_in p m gs ≡ gs = ground (arith, a) in
        same ∙ sym (map_same (advance_by m) gs (λ g. ground (arith, a)))
    | inr (target, a) ↦ elim (Option-cases (and_then (as_str (index m "decision")) parse)) [
      | inl b ↦
          let same : resolve_in p m gs ≡ gs = ground (arith, a, b) in
          same ∙ sym (map_same (advance_by m) gs (λ g. ground (arith, a, b)))
      | inr (d, b) ↦
          let changed : resolve_in p m gs ≡ change_pending p target (decided p m d) gs =
            ground (arith, a, b) in
          changed
          ∙ change_pending-map target (decided p m d) gs h
          ∙ map_ext (touch target (decided p m d)) (advance_by m) gs (λ g. ground (arith, a, b))
    ]
  ]

  observe-map :
      (gs : List Gate) (e : RunEvent p) → Apart gs → observe p gs e ≡ map (advance e) gs ++ opens e
  observe-map gs e h = elim (turn e) [
    | ignored a b c ↦
        a gs ∙ sym (append-nil gs) ∙ ap₂ ◌++◌ (sym (map_same (advance e) gs b)) (sym c)
    | requests a b c ↦ a gs ∙ ap₂ ◌++◌ (sym (map_same (advance e) gs b)) (sym c)
    | resolves a b c ↦
        a gs
        ∙ resolve_in-map (meta p e) gs h
        ∙ sym (append-nil (map (advance_by (meta p e)) gs))
        ∙ ap₂ ◌++◌ (sym (map_ext (advance e) (advance_by (meta p e)) gs b)) (sym c)
  ]

  advance_by-seq : (m : Value) (g : Gate) → (advance_by m g).seq ≡ g.seq
  unfolding advance_by decided
  advance_by-seq m g = ground arith

  advance-seq : (e : RunEvent p) (g : Gate) → (advance e g).seq ≡ g.seq
  advance-seq e g = elim (turn e) [
    | ignored a b c ↦ ap (λ (x : Gate). x.seq) (b g)
    | requests a b c ↦ ap (λ (x : Gate). x.seq) (b g)
    | resolves a b c ↦ ap (λ (x : Gate). x.seq) (b g) ∙ advance_by-seq (meta p e) g
  ]

  opens-seq :
      (e : RunEvent p) → (opens e ≡ []) ⊎ ((g : Gate) × (opens e ≡ g ∷ []) × (g.seq ≡ e.seq))
  unfolding opened
  opens-seq e = elim (turn e) [
    | ignored a b c ↦ inl c
    | requests a b c ↦ inr (opened p e, c, refl)
    | resolves a b c ↦ inl c
  ]

  All-advance :
      (P : ℕ → Type 0) (e : RunEvent p) (gs : List Gate)
      → All (λ g. P g.seq) gs
      → All (λ g. P g.seq) (map (advance e) gs)
  All-advance P e [] h = tt
  All-advance P e (g ∷ gs) h = (subst P (sym (advance-seq e g)) h.0, All-advance P e gs h.1)

  Apart-advance : (e : RunEvent p) (gs : List Gate) → Apart gs → Apart (map (advance e) gs)
  Apart-advance e [] h = tt
  Apart-advance e (g ∷ gs) h = (
    subst (λ n. All (λ x. n ≢ x.seq) (map (advance e) gs)) (sym (advance-seq e g))
        (All-advance (λ n. g.seq ≢ n) e gs h.0),
    Apart-advance e gs h.1,
  )

  Apart-last :
      (gs : List Gate) (g : Gate) (n : ℕ)
      → Apart gs
      → All (λ x. x.seq < n) gs
      → n ≤ g.seq
      → Apart (gs ++ g ∷ []) × All (λ x. x.seq < suc g.seq) (gs ++ g ∷ [])
  Apart-last [] g n h b le = ((tt, tt), (omega arith, tt))
  Apart-last (x ∷ xs) g n h b le =
      let ih = Apart-last xs g n h.1 b.1 le in
      (
        (All-append (λ y. x.seq ≢ y.seq) xs (g ∷ []) h.0 (omega (arith, b.0), tt), ih.0),
        (omega (arith, b.0), ih.1),
      )

  Below-mono :
      (gs : List Gate) (m n : ℕ) → m ≤ n → All (λ x. x.seq < m) gs → All (λ x. x.seq < n) gs
  Below-mono [] m n le h = tt
  Below-mono (g ∷ gs) m n le h = (omega (arith, h.0), Below-mono gs m n le h.1)

  observed :
      (gs : List Gate) (e : RunEvent p) (n : ℕ)
      → Apart gs
      → All (λ g. g.seq < n) gs
      → n ≤ e.seq
      → Apart (map (advance e) gs ++ opens e)
        × All (λ g. g.seq < suc e.seq) (map (advance e) gs ++ opens e)
  observed gs e n h b le =
      let moved = map (advance e) gs in
      let apart = Apart-advance e gs h in
      let below = All-advance (λ m. m < n) e gs b in
      elim (opens-seq e) [
        | inl c ↦
            subst (λ o. Apart (moved ++ o) × All (λ g. g.seq < suc e.seq) (moved ++ o)) (sym c)
              (subst (λ l. Apart l × All (λ g. g.seq < suc e.seq) l) (sym (append-nil moved))
                (apart, Below-mono moved n (suc e.seq) (omega arith) below))
        | inr (g, c, d) ↦
            subst (λ o. Apart (moved ++ o) × All (λ g. g.seq < suc e.seq) (moved ++ o)) (sym c)
              (subst (λ m. Apart (moved ++ g ∷ []) × All (λ x. x.seq < suc m) (moved ++ g ∷ [])) d
                (Apart-last moved g n apart below (omega (arith, d))))
      ]

  project_from-map :
      (gs : List Gate) (es : List (RunEvent p)) (n : ℕ)
      → Apart gs
      → All (λ g. g.seq < n) gs
      → Rising n es
      → project_from p gs es ≡ map (λ g. outcome g es) gs ++ gates_of es
  unfolding project_from outcome gates_of
  project_from-map gs [] n h b r =
      sym (append-nil (map (λ g. g) gs) ∙ map_same (λ g. g) gs (λ g. refl))
  project_from-map gs (e ∷ es) n h b r =
      let next = map (advance e) gs in
      let (apart, below) = observed gs e n h b r.0 in
      ap (λ l. project_from p l es) (observe-map gs e h)
      ∙ project_from-map (next ++ opens e) es (suc e.seq) apart below r.1
      ∙ ap (λ l. l ++ gates_of es)
          (map-append (λ g. outcome g es) next (opens e)
            ∙ ap (λ l. l ++ map (λ g. outcome g es) (opens e))
                (map_twice (advance e) (λ g. outcome g es) gs))
      ∙ append_assoc (map (λ g. outcome (advance e g) es) gs) (map (λ g. outcome g es) (opens e))
          (gates_of es)

  -- On events whose places rise, as those of a record do, the fold with its searches gives each request's gate, in
  -- the order of the requests, as that gate goes through the later events by itself.
  pub project-gates_of : (es : List (RunEvent p)) → Rising 0 es → project p es ≡ gates_of es
  unfolding project
  project-gates_of es r = project_from-map [] es 0 tt tt r

  advance_by_decided :
      (m : Value) (g : Gate) (d : Decision) → g.state ≡ resolved d → advance_by m g ≡ g
  unfolding advance_by is_pending
  advance_by_decided m g d h = ground (arith, h)

  advance_decided :
      (e : RunEvent p) (g : Gate) (d : Decision) → g.state ≡ resolved d → advance e g ≡ g
  advance_decided e g d h = elim (turn e) [
    | ignored a b c ↦ b g
    | requests a b c ↦ b g
    | resolves a b c ↦ b g ∙ advance_by_decided (meta p e) g d h
  ]

  outcome_decided :
      (g : Gate) (d : Decision) (es : List (RunEvent p)) → g.state ≡ resolved d → outcome g es ≡ g
  unfolding outcome
  outcome_decided g d [] h = refl
  outcome_decided g d (e ∷ es) h =
      ap (λ x. outcome x es) (advance_decided e g d h) ∙ outcome_decided g d es h

  outcome-seq : (g : Gate) (es : List (RunEvent p)) → (outcome g es).seq ≡ g.seq
  unfolding outcome
  outcome-seq g [] = refl
  outcome-seq g (e ∷ es) = outcome-seq (advance e g) es ∙ advance-seq e g

  -- What later events leave of gates: each at its place, and those that are decided as they are.
  abbrev pub Stay : List Gate → List Gate → Type 0
  Stay [] [] = Unit
  Stay [] (h ∷ hs) = ⊥
  Stay (g ∷ gs) [] = ⊥
  Stay (g ∷ gs) (h ∷ hs) =
      (h.seq ≡ g.seq) × ((d : Decision) → g.state ≡ resolved d → h ≡ g) × Stay gs hs

  outcomes-Stay : (gs : List Gate) (es : List (RunEvent p)) → Stay gs (map (λ g. outcome g es) gs)
  outcomes-Stay [] es = tt
  outcomes-Stay (g ∷ gs) es =
      (outcome-seq g es, (λ d h. outcome_decided g d es h), outcomes-Stay gs es)

  outcome-append :
      (g : Gate) (es fs : List (RunEvent p)) → outcome g (es ++ fs) ≡ outcome (outcome g es) fs
  unfolding outcome
  outcome-append g [] fs = refl
  outcome-append g (e ∷ es) fs = outcome-append (advance e g) es fs

  gates_of-append :
      (es fs : List (RunEvent p))
      → gates_of (es ++ fs) ≡ map (λ g. outcome g fs) (gates_of es) ++ gates_of fs
  unfolding gates_of
  gates_of-append [] fs = refl
  gates_of-append (e ∷ es) fs =
      ap (λ l. map (λ g. outcome g (es ++ fs)) (opens e) ++ l) (gates_of-append es fs)
      ∙ ap (λ l. l ++ (map (λ g. outcome g fs) (gates_of es) ++ gates_of fs))
          (map_ext (λ g. outcome g (es ++ fs)) (λ g. outcome (outcome g es) fs) (opens e)
              (λ g. outcome-append g es fs)
            ∙ sym (map_twice (λ g. outcome g es) (λ g. outcome g fs) (opens e)))
      ∙ sym (
          append_assoc (map (λ g. outcome g fs) (map (λ g. outcome g es) (opens e)))
            (map (λ g. outcome g fs) (gates_of es)) (gates_of fs))
      ∙ ap (λ l. l ++ gates_of fs)
          (sym (map-append (λ g. outcome g fs) (map (λ g. outcome g es) (opens e)) (gates_of es)))

  Rising-front : (n : ℕ) (es fs : List (RunEvent p)) → Rising n (es ++ fs) → Rising n es
  Rising-front n [] fs h = tt
  Rising-front n (e ∷ es) fs h = (h.0, Rising-front (suc e.seq) es fs h.1)

  -- The first decision on a gate stays. Of a record whose places rise, `project` gives, whatever events
  -- follow, the gates that it gave before, in their order and at their places, and behind them only
  -- further ones; and a gate that was decided is given again with no field changed.
  pub decided_stays :
      (es fs : List (RunEvent p))
      → Rising 0 (es ++ fs)
      → (kept : List Gate) × (further : List Gate) × (project p (es ++ fs) ≡ kept ++ further)
        × Stay (project p es) kept
  decided_stays es fs r =
      let before = project-gates_of es (Rising-front 0 es fs r) in
      (
        map (λ g. outcome g fs) (gates_of es),
        gates_of fs,
        project-gates_of (es ++ fs) r ∙ gates_of-append es fs,
        subst (λ gs. Stay gs (map (λ g. outcome g fs) (gates_of es))) (sym before)
            (outcomes-Stay (gates_of es) fs),
      )
