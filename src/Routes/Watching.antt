-- ===== src/Routes/Watching.antt =====
-- `watch` of crates/tideline-server/src/tlr/routes.rs: what a watcher gets of a record that grows.
use tideline.Base.{ℕ, ◌^◌, ◌≤◌, ◌<◌, ◌≡◌, ◌⊎◌, some, List, [], ◌∷◌, ◌++◌, length, take, drop}
use tideline.Platform.{Platform}
use tideline.Proto.Event.{RunEvent}
use tideline.Stream
use tideline.Stream.{Signal, token, gap, error}
use tideline.Sdk.Paging.{Growing}
use tideline.Routes.Watch.{done, Reader}

-- A signal that only wakes the watcher.
abbrev pub Wakes : Signal → Type 0
Wakes (token t) = Unit
Wakes gap = Unit
Wakes (error m) = ⊥
Wakes Stream.done = ⊥

-- The spine's stream ends, or says that it is done.
abbrev pub Ends : List Signal → Type 0
Ends signals = (signals ≡ []) ⊎ ((rest : List Signal) × (signals ≡ Stream.done ∷ rest))

module _ (p : Platform) where
  -- A reader that gives the record as it stands, by pages.
  abbrev pub Reads : Reader p → (ℕ → List (RunEvent p)) → Type 0
  Reads read record_at =
      (i next : ℕ)
      → next ≤ length (record_at i)
      → read i next ≡ some (take 500 (drop next (record_at i)))

  module _ (n : ℕ) (record_at : ℕ → List (RunEvent p)) (read : Reader p)
      (grow : Growing p n record_at) (reads : Reads read record_at) (fits : n < 2 ^ 64)
      (pre : List (RunEvent p)) where
    -- What has been sent, behind the events that were not asked for, is the record up to `next`.
    abbrev SentUpTo : ℕ → ℕ → List (RunEvent p) → Type 0
    SentUpTo i next out = (next ≤ length (record_at i)) × (pre ++ out ≡ take next (record_at i))
