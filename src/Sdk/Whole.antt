-- ===== src/Sdk/Whole.antt =====
-- `events_paged` of crates/tideline-sdk/src/run.rs against the store of
-- crates/tideline-server/src/tlr/sqlite.rs, which brings a page within 1 and 5000 events.
use tideline.Base.{
  ℕ, zero, suc, ◌*◌, ◌^◌, ◌≤◌, ◌<◌, ◌≡◌, refl, sym, ap, ◌∙◌, subst, none, some, List, [], ◌∷◌, ◌++◌,
  length, length-map, take, drop, ltb, true, arith, append-nil, max, min,
}
use tideline.Platform.{Platform}
use tideline.Signing.{Signing}
use tideline.Proto.Digest.{Hash, zero_hash}
use tideline.Proto.Event.{RunEvent}
use tideline.Proto.Chain.Linked.{Linked, IsChain}
use tideline.Record.Store.{RunKey}
use tideline.Record.Tables.{RunRow, row_to_event}
use tideline.Record.Sqlite.{find_run, events, clamp}
use tideline.Record.Invariant.{record_of}
use tideline.Record.Sound.{found-IsRecord}
use tideline.Record.History.{Call, run, empty, run-IsSound, empty-IsSound}
use tideline.Record.Paging.{events_page}
use tideline.Sdk.{ok, Server, next_from, paged_from, events_paged}
use tideline.Sdk.Paging.{Placed, events_paged-record, length-take_le}

less : (a b : ℕ) → a < b → ltb a b ≡ true
less a b h = ground arith

module _ (p : Platform) (s : Signing) where
  -- The store behind the route, for a run that is there.
  abbrev pub store_server : List (Call p s) → RunKey → Server p
  store_server cs k i from limit = ok (events p s (run p s (empty p s) cs) k from limit)

  abbrev pub stored : List (Call p s) → RunKey → List (RunEvent p)
  stored cs k = record_of p ((run p s (empty p s) cs).events k)

  Linked-Placed :
      (i : ℕ) (prev : Hash) (es : List (RunEvent p)) → Linked p i prev es → Placed p i es
  Linked-Placed i prev [] h = tt
  Linked-Placed i prev (e ∷ es) h = (h.0, Linked-Placed (suc i) e.hash es h.3)

  stored-Placed :
      (cs : List (Call p s)) (k : RunKey) (r : RunRow)
      → find_run p s (run p s (empty p s) cs) k ≡ some r
      → Placed p 0 (stored cs k)
  stored-Placed cs k r h =
      let sound =
        found-IsRecord p s (run p s (empty p s) cs) k r
          (run-IsSound p s (empty p s) cs (empty-IsSound p s)) h in
      opened (stored cs k) sound.chain
    where
      opened : (es : List (RunEvent p)) → IsChain p es → Placed p 0 es
      opened [] c = absurd c
      opened (e ∷ es) c = Linked-Placed 0 zero_hash (e ∷ es) c.1

  -- One page of the store, when the page is no longer than the store allows.
  page-clamp : (page : ℕ) → 1 ≤ page → page ≤ 5000 → clamp 1 5000 page ≡ page
  unfolding clamp
  page-clamp page h k = omega arith

  serves :
      (cs : List (Call p s)) (k : RunKey) (r : RunRow) (from page : ℕ)
      → find_run p s (run p s (empty p s) cs) k ≡ some r
      → length (stored cs k) < 2 ^ 62
      → from ≤ length (stored cs k)
      → events p s (run p s (empty p s) cs) k from page
        ≡ take (clamp 1 5000 page) (drop from (stored cs k))
  serves cs k r from page h small inside =
      let count = length-map (row_to_event p) ((run p s (empty p s) cs).events k) in
      events_page p s cs k r from page h (omega (arith, count))

  -- Whatever calls the store has run since it was empty, a client that asks for pages of 1 to 5000
  -- events gets the whole record of a run, and its loop ends: it needs one request more than the full
  -- pages of the record.
  pub events_paged-whole :
      (cs : List (Call p s)) (k : RunKey) (r : RunRow) (page fuel : ℕ)
      → find_run p s (run p s (empty p s) cs) k ≡ some r
      → length (stored cs k) < 2 ^ 62
      → 1 ≤ page
      → page ≤ 5000
      → length (stored cs k) < fuel * page
      → events_paged p (store_server cs k) page fuel ≡ some (ok (stored cs k))
  events_paged-whole cs k r page fuel h small some_page allowed enough =
      (events_paged-record p (length (stored cs k)) page fuel (λ i. stored cs k) (store_server cs k)
        (record {
          placed = λ i. stored-Placed cs k r h;
          grows = λ i. ([], sym (append-nil (stored cs k)));
          bounded = λ i. omega arith;
        })
        (λ i from inside. ap ok (
          serves cs k r from page h small inside
          ∙ ap (λ n. take n (drop from (stored cs k))) (page-clamp page some_page allowed)))
        some_page (omega arith) enough).1

  -- With a page of more than 5000 events, `events_paged` takes the first page that the store gives,
  -- of 5000 events, for the last: from a longer record it returns only the first 5000 events.
  pub events_paged_short :
      (cs : List (Call p s)) (k : RunKey) (r : RunRow) (page fuel : ℕ)
      → find_run p s (run p s (empty p s) cs) k ≡ some r
      → length (stored cs k) < 2 ^ 62
      → 5000 < page
      → events_paged p (store_server cs k) page (suc fuel) ≡ some (ok (take 5000 (stored cs k)))
  unfolding events_paged paged_from clamp
  events_paged_short cs k r page fuel h small long =
      let first = serves cs k r 0 page h small (omega arith) in
      let at_most : max 1 (min page 5000) ≡ 5000 = omega arith in
      let batch = events p s (run p s (empty p s) cs) k 0 page in
      let same : batch ≡ take 5000 (stored cs k) = first ∙ ap (λ n. take n (stored cs k)) at_most in
      let few : length batch ≤ 5000 =
        subst (λ l. length l ≤ 5000) (sym same) (length-take_le 5000 (stored cs k)) in
      let short : ltb (length batch) page ≡ true = less (length batch) page (omega arith) in
      rw short (ap (λ l. some (ok l)) same)

  -- With a page of no events the loop never ends: no fuel is enough.
  pub events_paged_endless :
      (cs : List (Call p s)) (k : RunKey) (fuel : ℕ)
      → events_paged p (store_server cs k) 0 fuel ≡ none
  unfolding events_paged paged_from
  events_paged_endless cs k fuel = endless fuel 0 0 []
    where
      endless :
          (fuel i from : ℕ) (all : List (RunEvent p))
          → paged_from p (store_server cs k) 0 fuel i from all ≡ none
      endless zero i from all = refl
      endless (suc fuel) i from all = ground (
        arith,
        endless fuel (suc i) (next_from p from (events p s (run p s (empty p s) cs) k from 0))
            (all ++ events p s (run p s (empty p s) cs) k from 0),
      )
