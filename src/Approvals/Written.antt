-- ===== src/Approvals/Written.antt =====
-- crates/tideline-server/src/tlr/approvals.rs: the events that `resolve` writes, as `project` reads
-- them.
use tideline.Base.{
  ℕ, ◌≡◌, ◌≢◌, refl, ap, ◌∙◌, subst, String, Bool, true, Option, none, some, List, [], ◌∷◌, ◌++◌,
  dec_text, arith, ◌==◌, Bool-cases, inl, inr,
}
use tideline.Base.Json
use tideline.Base.Json.{Value, index, as_str, as_u64, as_bool, from_option, number, string, bool}
use tideline.Base.{◌<◌, ◌^◌}
use tideline.Base.Json.{object, Fields, AreFlat, from_option-IsScalar}
use tideline.Platform.{Platform, IsPlatform}
use tideline.Signing.{Signing}
use tideline.Proto.Kind.{decision}
use tideline.Proto.Event.{RunEvent}
use tideline.Record.Store.{NewEvent}
use tideline.Approvals.{
  Gate, Decision, approved, rejected, expired, resolved, is_pending, and_then, parse, as_word, meta,
  decided, change_pending, resolve_in, observe, project_from, project, requested_name,
  resolved_name,
}
use tideline.Approvals.Operations.{find_gate, decision_event, resolution}

as_str-from_option : (o : Option String) → as_str (from_option o) ≡ o
as_str-from_option none = refl
as_str-from_option (some x) = refl

parse-as_word : (d : Decision) → parse (as_word d) ≡ some d
unfolding parse as_word dec_text
parse-as_word approved = refl
parse-as_word rejected = refl
parse-as_word expired = refl

names_differ : ◌≢◌ {A = String} resolved_name requested_name
names_differ e = let same : ◌≡◌ {A = String} "approval_resolved" "approval_requested" = e in cc

module _ (p : Platform) where
  project_from-append :
      (gs : List Gate) (es : List (RunEvent p)) (e : RunEvent p)
      → project_from p gs (es ++ e ∷ []) ≡ observe p (project_from p gs es) e
  unfolding project_from
  project_from-append gs [] e = refl
  project_from-append gs (x ∷ xs) e = project_from-append (observe p gs x) xs e

  find_gate-change_pending :
      (target : ℕ) (change : Gate → Gate) (gs : List Gate) (g : Gate)
      → ((h : Gate) → (change h).seq ≡ h.seq)
      → find_gate target gs ≡ some g
      → is_pending g.state ≡ true
      → find_gate target (change_pending p target change gs) ≡ some (change g)
  unfolding find_gate change_pending
  find_gate-change_pending target change [] g keep f b = cc
  find_gate-change_pending target change (x ∷ xs) g keep f b = elim (Bool-cases (x.seq == target)) [
    | inl c ↦
        let same : x ≡ g = ground (arith, c, f) in
        subst (λ y. find_gate target (change_pending p target change (x ∷ xs)) ≡ some (change y))
          same (ground (arith, c, keep x, b, same))
    | inr c ↦ ground (arith, c, f, find_gate-change_pending target change xs g keep)
  ]

  -- An event of the record that carries what a client appended.
  pub record Carries (e : RunEvent p) (new : NewEvent p) : Type 0 where
    pub kind : e.kind ≡ new.kind
    pub name : e.name ≡ new.name
    pub metadata : e.metadata ≡ new.metadata

  meta_read :
      (laws : IsPlatform p) (e : RunEvent p) (fs : Fields)
      → AreFlat fs
      → e.metadata ≡ some (p.to_raw (object fs))
      → (k : String) → index (meta p e) k ≡ index (object fs) k
  unfolding meta and_then
  meta_read laws e fs flat h k = let (w, read, same) = laws.printed fs flat in rw (h, read) (same k)

  resolve_in_reads :
      (m : Value) (gs : List Gate) (target : ℕ) (d : Decision)
      → as_u64 (index m "target_seq") ≡ some target
      → and_then (as_str (index m "decision")) parse ≡ some d
      → resolve_in p m gs ≡ change_pending p target (decided p m d) gs
  unfolding resolve_in
  resolve_in_reads m gs target d a b = ground arith

  observe_resolved :
      (gs : List Gate) (e : RunEvent p)
      → e.kind ≡ decision
      → e.name ≡ some resolved_name
      → observe p gs e ≡ resolve_in p (meta p e) gs
  unfolding observe
  observe_resolved gs e a b = ground (arith, a, b, names_differ)

  decided_fields :
      (m : Value) (d : Decision) (g : Gate) (reviewer principal note : Option String)
      (attested : Bool)
      → as_str (index m "reviewer") ≡ reviewer
      → as_str (index m "reviewer_principal") ≡ principal
      → as_bool (index m "attested") ≡ some attested
      → as_str (index m "note") ≡ note
      → decided p m d g ≡ record g {
        state = resolved d;
        reviewer = reviewer;
        reviewer_principal = principal;
        attested = attested;
        note = note;
      }
  unfolding decided
  decided_fields m d g reviewer principal remark attested a b c e = rw (a, b, c, e)

  decided-seq : (m : Value) (d : Decision) (g : Gate) → (decided p m d g).seq ≡ g.seq
  unfolding decided
  decided-seq m d g = refl

module _ (p : Platform) (s : Signing) where
  resolution_entries :
      (target : ℕ) (d : Decision) (reviewer principal : Option String) (attested : Bool)
      (note : Option String)
      → let v = resolution p s target d reviewer principal attested note in
        (index v "target_seq" ≡ number target)
        × (index v "decision" ≡ string (as_word d))
        × (index v "reviewer" ≡ from_option reviewer)
        × (index v "reviewer_principal" ≡ from_option principal)
        × (index v "attested" ≡ bool attested)
        × (index v "note" ≡ from_option note)
  unfolding resolution Json.index Json.find_field dec_text
  resolution_entries target d reviewer principal attested remark =
      (refl, refl, refl, refl, refl, refl)

  resolution_read :
      (laws : IsPlatform p) (e : RunEvent p) (target : ℕ) (d : Decision)
      (reviewer principal : Option String) (attested : Bool) (note : Option String)
      → target < 2 ^ 64
      → e.metadata ≡ some (p.to_raw (resolution p s target d reviewer principal attested note))
      → (k : String)
      → index (meta p e) k ≡ index (resolution p s target d reviewer principal attested note) k
  unfolding resolution Json.has_field dec_text
  resolution_read laws e target d reviewer principal attested remark fits h =
      meta_read p laws e _
        ((
          fits,
          refl,
          (
            tt,
            refl,
            (
              from_option-IsScalar reviewer,
              refl,
              (
                from_option-IsScalar principal,
                refl,
                (tt, refl, (from_option-IsScalar remark, refl, tt)),
              ),
            ),
          ),
        ))
        h

  -- A decision on a place of 64 bits that `resolve` writes is the one that `project` reads: behind a record in which the
  -- gate is pending, an event with that content leaves the gate decided so, with the reviewer, the
  -- principal, the attestation and the note that were given, and its action and expiry unchanged.
  pub resolution_decides :
      (laws : IsPlatform p) (es : List (RunEvent p)) (e : RunEvent p) (target : ℕ) (d : Decision)
      (reviewer principal : Option String) (attested : Bool) (note : Option String) (g : Gate)
      → target < 2 ^ 64
      → Carries p e (
          decision_event p s resolved_name
            (resolution p s target d reviewer principal attested note))
      → find_gate target (project p es) ≡ some g
      → is_pending g.state ≡ true
      → find_gate target (project p (es ++ e ∷ []))
        ≡ some (record g {
          state = resolved d;
          reviewer = reviewer;
          reviewer_principal = principal;
          attested = attested;
          note = note;
        })
  unfolding project decision_event and_then
  resolution_decides laws es e target d reviewer principal attested note g fits c found still =
      let m = meta p e in
      let read = resolution_read laws e target d reviewer principal attested note fits c.metadata in
      let (a1, a2, a3, a4, a5, a6) = resolution_entries target d reviewer principal attested note in
      let gates = project_from p [] es in
      let word : and_then (as_str (index m "decision")) parse ≡ some d =
        ap (λ x. and_then (as_str x) parse) (read "decision" ∙ a2) ∙ parse-as_word d in
      ap (find_gate target) (
        project_from-append p [] es e
        ∙ observe_resolved p gates e c.kind c.name
        ∙ resolve_in_reads p m gates target d (ap as_u64 (read "target_seq" ∙ a1)) word)
      ∙ find_gate-change_pending p target (decided p m d) gates g (decided-seq p m d) found still
      ∙ ap some (
          decided_fields p m d g reviewer principal note attested
            (ap as_str (read "reviewer" ∙ a3) ∙ as_str-from_option reviewer)
            (ap as_str (read "reviewer_principal" ∙ a4) ∙ as_str-from_option principal)
            (ap as_bool (read "attested" ∙ a5))
            (ap as_str (read "note" ∙ a6) ∙ as_str-from_option note))
