-- ===== src/Proto/Kind.antt =====
-- crates/tideline-proto/src/kind.rs: the kinds of events and their wire strings.
use tideline.Base.{
  String, ◌≡◌, refl, sym, ap, ◌∙◌, ◌↔◌, ite, Option, none, some, List, [], ◌∷◌, arith, dec_text,
}

pub data EventKind : Type 0 where
  run_started message model_call tool_call decision redaction run_finished : EventKind

unfoldable pub kind_discrete : Discrete EventKind
kind_discrete = hlevel

abbrev pub all : List EventKind
all = run_started ∷ message ∷ model_call ∷ tool_call ∷ decision ∷ redaction ∷ run_finished ∷ []

unfoldable pub as_str : EventKind → String
as_str run_started = "run_started"
as_str message = "message"
as_str model_call = "model_call"
as_str tool_call = "tool_call"
as_str decision = "decision"
as_str redaction = "redaction"
as_str run_finished = "run_finished"

-- `iter().copied().find(|k| k.as_str() == s)`
unfoldable pub find_kind : String → List EventKind → Option EventKind
find_kind s [] = none
find_kind s (k ∷ ks) = ite (dec_text (as_str k) s) (some k) (find_kind s ks)

unfoldable pub parse : String → Option EventKind
unfolding find_kind
parse s = find_kind s all

parse-as_str : (k : EventKind) → parse (as_str k) ≡ some k
unfolding parse as_str dec_text
parse-as_str run_started = refl
parse-as_str message = refl
parse-as_str model_call = refl
parse-as_str tool_call = refl
parse-as_str decision = refl
parse-as_str redaction = refl
parse-as_str run_finished = refl

find_kind_sound :
    (s : String) (ks : List EventKind) (k : EventKind) → find_kind s ks ≡ some k → as_str k ≡ s
unfolding find_kind
find_kind_sound s [] k h = cc
find_kind_sound s (j ∷ ks) k h = ground (arith, find_kind_sound s ks k)

-- A wire string parses to a kind exactly when it is the string of that kind: no string is read as a
-- kind that it does not name, and no kind is lost.
pub parse_iff : (s : String) (k : EventKind) → (parse s ≡ some k) ↔ (s ≡ as_str k)
unfolding parse
parse_iff s k = (λ h. sym (find_kind_sound s all k h), λ e. ap parse e ∙ parse-as_str k)
