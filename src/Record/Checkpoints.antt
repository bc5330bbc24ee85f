-- ===== src/Record/Checkpoints.antt =====
-- `put_checkpoint` and `latest_checkpoint` of crates/tideline-server/src/tlr/sqlite.rs.
use tideline.Base.{ℕ, Option, none, some, [], ◌∷◌, ℕ_discrete, if◌then◌else◌}
use tideline.Base.Bytes.{le_i64}
use tideline.Base.Table
use tideline.Base.Table.{Table}
use tideline.Platform.{Platform}
use tideline.Signing.{Signing}
use tideline.Proto.Checkpoint.{Checkpoint}
use tideline.Record.Store.{RunKey, Message, StoreResult, ok, err, backend}
use tideline.Record.Tables.{Db, update}

module _ (p : Platform) (s : Signing) where
  -- The statement of `put_checkpoint`: `INSERT OR REPLACE`, by `(ns, run_id, seq)`.
  unfoldable pub insert_checkpoint : Db p s → RunKey → Checkpoint s → Db p s
  insert_checkpoint db k cp = record db {
    checkpoints = update db.checkpoints k (Table.insert ℕ_discrete cp.seq cp (db.checkpoints k));
  }

  -- `put_checkpoint`, given what the database says when it cannot write.
  unfoldable pub put_checkpoint :
      Option Message → Db p s → RunKey → Checkpoint s → StoreResult (Db p s)
  put_checkpoint (some m) db k cp = err (backend m)
  put_checkpoint none db k cp = ok (insert_checkpoint db k cp)

  -- The later of two, in the order of the column.
  unfoldable pub later : Option (Checkpoint s) → Checkpoint s → Checkpoint s
  later none cp = cp
  later (some best) cp = if le_i64 cp.seq best.seq then best else cp

  -- `ORDER BY seq DESC LIMIT 1`
  unfoldable pub latest_of : Table ℕ (Checkpoint s) → Option (Checkpoint s)
  latest_of [] = none
  latest_of ((n, cp) ∷ rest) = some (later (latest_of rest) cp)

  unfoldable pub latest_checkpoint : Db p s → RunKey → Option (Checkpoint s)
  latest_checkpoint db k = latest_of (db.checkpoints k)
