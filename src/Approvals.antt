-- ===== src/Approvals.antt =====
-- crates/tideline-server/src/tlr/approvals.rs: approval gates, as events of the record.
pub mod Gates
pub mod Operations
pub mod Written
use tideline.Base.{
  ℕ, ◌+◌, String, Bool, true, false, Option, none, some, List, [], ◌∷◌, ◌++◌, ite, dec_text, ◌==◌,
  ◌&&◌, if◌then◌else◌,
}
use tideline.Base.Json.{Value, null, index, as_str, as_u64, as_bool}
use tideline.Platform.{Platform}
use tideline.Proto.Kind.{kind_discrete, decision}
use tideline.Proto.Canon.{map_option, unwrap_or}
use tideline.Proto.Event.{RunEvent}

abbrev pub requested_name : String
requested_name = "approval_requested"

abbrev pub resolved_name : String
resolved_name = "approval_resolved"

pub data Decision : Type 0 where
  approved : Decision
  rejected : Decision
  expired : Decision

unfoldable pub as_word : Decision → String
as_word approved = "approved"
as_word rejected = "rejected"
as_word expired = "expired"

unfoldable pub parse : String → Option Decision
parse s = ite (dec_text s "approved") (some approved) (
    ite (dec_text s "approve") (some approved) (
      ite (dec_text s "rejected") (some rejected) (
        ite (dec_text s "reject") (some rejected)
          (ite (dec_text s "expired") (some expired) none))))

pub data ApprovalState : Type 0 where
  pending : ApprovalState
  resolved : Decision → ApprovalState

unfoldable pub is_pending : ApprovalState → Bool
is_pending pending = true
is_pending (resolved _) = false

pub record Gate : Type 0 where
  pub seq : ℕ
  pub action : String
  pub expires_at : ℕ
  pub state : ApprovalState
  pub reviewer : Option String
  pub reviewer_principal : Option String
  pub attested : Bool
  pub note : Option String

unfoldable pub and_then : {A B : Type 0} → Option A → (A → Option B) → Option B
and_then none f = none
and_then (some a) f = f a

module _ (p : Platform) where
  unfoldable pub meta : RunEvent p → Value
  meta e = unwrap_or null (and_then e.metadata p.from_raw)

  -- The gate that a request opens.
  unfoldable pub opened : RunEvent p → Gate
  opened e = record {
    seq = e.seq;
    action = unwrap_or "" (as_str (index (meta e) "action"));
    expires_at = unwrap_or 0 (as_u64 (index (meta e) "expires_at"));
    state = pending;
    reviewer = none;
    reviewer_principal = none;
    attested = false;
    note = none;
  }

  -- A gate with the decision that an event carries.
  unfoldable pub decided : Value → Decision → Gate → Gate
  decided m d g = record g {
    state = resolved d;
    reviewer = as_str (index m "reviewer");
    reviewer_principal = as_str (index m "reviewer_principal");
    attested = unwrap_or false (as_bool (index m "attested"));
    note = as_str (index m "note");
  }

  -- `gates.iter_mut().find(..)`, and the change to what it finds.
  unfoldable pub change_pending : ℕ → (Gate → Gate) → List Gate → List Gate
  change_pending target change [] = []
  change_pending target change (g ∷ gs) =
      let rest = change_pending target change gs in
      if g.seq == target && is_pending g.state then change g ∷ gs else g ∷ rest

  unfoldable pub resolve_in : Value → List Gate → List Gate
  resolve_in m gates = elim (as_u64 (index m "target_seq")) [
    | none ↦ gates
    | some target ↦ elim (and_then (as_str (index m "decision")) parse) [
      | none ↦ gates
      | some d ↦ change_pending target (decided m d) gates
    ]
  ]

  -- One turn of the loop of `project`.
  unfoldable pub observe : List Gate → RunEvent p → List Gate
  observe gates e =
      ite (kind_discrete e.kind decision)
        (elim e.name [
          | none ↦ gates
          | some n ↦
              ite (dec_text n requested_name) (gates ++ opened e ∷ [])
                (ite (dec_text n resolved_name) (resolve_in (meta e) gates) gates)
        ])
        gates

  unfoldable pub project_from : List Gate → List (RunEvent p) → List Gate
  project_from gates [] = gates
  project_from gates (e ∷ es) = project_from (observe gates e) es

  unfoldable pub project : List (RunEvent p) → List Gate
  project events = project_from [] events
