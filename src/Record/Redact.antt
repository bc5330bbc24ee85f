-- ===== src/Record/Redact.antt =====
-- `redact` of crates/tideline-server/src/tlr/sqlite.rs: erasing fields of an event. The digests of the
-- erased values are kept in the event, and an event of its own records the erasure.
pub mod Keeps
use tideline.Base.{
  ℕ, String, Bool, true, false, ite, Option, none, some, List, [], ◌∷◌, as_bytes, dec_text,
  if◌then◌else◌,
}
use tideline.Base.Table
use tideline.Base.Table.{Table}
use tideline.Platform.{Platform}
use tideline.Signing.{Signing}
use tideline.Proto.Kind.{redaction}
use tideline.Proto.Digest.{Hash}
use tideline.Proto.Canon.{map_option, unwrap_or, redactable}
use tideline.Record.Store.{
  RunKey, AppendResult, StoreResult, ok, err, not_found, invalid, is_structural, ok_or, ◌>>=◌, ◌>>◌,
}
use tideline.Record.Tables.{EventRow, Db, update, redaction_meta, find_row, replace_row}
use tideline.Record.Sqlite.{append_in_tx, structural}

-- `slice.contains(&name)`
unfoldable pub contains : List String → String → Bool
contains [] name = false
contains (x ∷ xs) name = ite (dec_text x name) true (contains xs name)

unfoldable pub check_fields : List String → StoreResult (Unit {0})
check_fields [] = ok tt
check_fields (f ∷ fs) =
    if contains redactable f then check_fields fs else err (invalid (is_structural f))

module _ (p : Platform) where
  -- The value of a column, as the bytes that are hashed.
  unfoldable pub present : EventRow p → String → Option (List ℕ)
  present r f = ite (dec_text f "role") (map_option as_bytes r.role) (
      ite (dec_text f "name") (map_option as_bytes r.name) (
        ite (dec_text f "content") (map_option as_bytes r.content)
          (ite (dec_text f "metadata") (map_option p.raw_bytes r.metadata) none)))

  -- `UPDATE tlr_events SET {f} = NULL`
  unfoldable pub set_null : String → EventRow p → EventRow p
  set_null f r =
      ite (dec_text f "role") (record r { role = none })
        (ite (dec_text f "name") (record r { name = none })
          (ite (dec_text f "content") (record r { content = none })
            (ite (dec_text f "metadata") (record r { metadata = none }) r)))

  -- One turn of the loop: a field that was there when the row was read is erased and its digest
  -- kept; one that was not is skipped.
  unfoldable pub erase_field :
      EventRow p → String → Table String Hash × EventRow p → Table String Hash × EventRow p
  erase_field original f (kept, r) = elim (present original f) [
    | none ↦ (kept, r)
    | some v ↦ (Table.insert dec_text f (p.sha256 v) kept, set_null f r)
  ]

  unfoldable pub erase_fields :
      EventRow p → List String → Table String Hash × EventRow p → Table String Hash × EventRow p
  erase_fields original [] state = state
  erase_fields original (f ∷ fs) state = erase_fields original fs (erase_field original f state)

  -- The row of the target after the loop and the last `UPDATE`.
  unfoldable pub erased : EventRow p → List String → EventRow p
  erased r fields =
      let (kept, r') = erase_fields r fields (unwrap_or [] r.redacted, r) in
      record r' { redacted = some kept }

module _ (p : Platform) (s : Signing) where
  unfoldable pub redact :
      Db p s → ℕ → RunKey → ℕ → List String → String → StoreResult (AppendResult × Db p s)
  redact db now k target fields authority = do
    check_fields fields
    row ← ok_or not_found (find_row p target (db.events k))
    let rows = replace_row p target (erased p row fields) (db.events k)
    append_in_tx p s (record db { events = update db.events k rows }) now k
        (structural p s redaction (redaction_meta target fields authority))
