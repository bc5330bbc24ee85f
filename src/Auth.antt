-- ===== src/Auth.antt =====
-- crates/tideline-server/src/tlr/auth.rs: who may read and write the record, and in which namespace.
pub mod Grants
use tideline.Base.{
  String, Bool, true, false, Option, none, some, ite, dec_text, if◌then◌else◌, ◌||◌, ◌&&◌, not,
}

pub data Access : Type 0 where
  granted : String → Access
  denied : Access

pub record AuthMode : Type 0 where
  pub publish_token : Option String
  pub subscribe_token : Option String
  pub cloud_verify : Bool

unfoldable pub is_none : Option String → Bool
is_none none = true
is_none (some _) = false

unfoldable pub wide_open : AuthMode → Bool
wide_open mode = is_none mode.publish_token && is_none mode.subscribe_token && not mode.cloud_verify

unfoldable pub matches : Option String → Option String → Bool
matches (some w) (some p) = ite (dec_text w p) true false
matches _ _ = false

unfoldable pub resolve_read : AuthMode → Option String → Option String → Access
resolve_read mode presented (some ns) = granted ns
resolve_read mode presented none =
    if wide_open mode
      || matches mode.subscribe_token presented
      || matches mode.publish_token presented
    then granted ""
    else denied

unfoldable pub resolve_write : AuthMode → Option String → Access
resolve_write mode presented =
    if matches mode.publish_token presented || wide_open mode then granted "" else denied
