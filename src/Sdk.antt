-- ===== src/Sdk.antt =====
-- crates/tideline-sdk/src/error.rs, client.rs and run.rs: the client of the record's routes. An
-- answer of the server is a parameter, indexed by the number of the request, since another client may
-- change the record between two requests.
pub mod Paging
pub mod Whole
pub mod Waiting
pub mod Sse
pub mod Chunks
use tideline.Base.{
  ℕ, zero, suc, ◌+◌, ◌*◌, ◌%◌, min, String, Bool, Option, none, some, List, [], ◌∷◌, ◌++◌, length,
  last_or, ltb, leb, ◌==◌, dec_text, ite, true, false, if◌then◌else◌, ◌&&◌,
}
use tideline.Base.Bytes.{u64_mod}
use tideline.Platform.{Platform}
use tideline.Proto.Chain
use tideline.Proto.Chain.{ChainError, verify_chain}
use tideline.Proto.Event.{RunEvent}

-- The body of a refusal and the text of a fault are kept as what they are made from.
pub data Error : Type 0 where
  transport : Error
  status : (code : ℕ) (body : List ℕ) → Error
  protocol : String → Error
  chain : ChainError → Error

pub data Fetched {ℓ} (A : Type ℓ) : Type ℓ where
  ok : A → Fetched A
  err : Error → Fetched A

unfoldable pub is_conflict : Error → Bool
is_conflict (status code body) = code == 409
is_conflict transport = false
is_conflict (protocol m) = false
is_conflict (chain e) = false

unfoldable pub is_not_found : Error → Bool
is_not_found (status code body) = code == 404
is_not_found transport = false
is_not_found (protocol m) = false
is_not_found (chain e) = false

-- What the network gives for a request: nothing, or a status and a body.
pub data Answer : Type 0 where
  failed : Answer
  answered : (code : ℕ) (body : List ℕ) → Answer

unfoldable pub send_raw : Answer → Fetched (List ℕ)
send_raw failed = err transport
send_raw (answered code body) =
    if leb 200 code && ltb code 300 then ok body else err (status code body)

-- The body, read by serde_json at the type that is asked for.
unfoldable pub send {ℓ} : {A : Type ℓ} → (List ℕ → Option A) → Answer → Fetched A
send parse answer = elim (send_raw answer) [
  | err e ↦ err e
  | ok body ↦ elim (parse body) [ none ↦ err (protocol "unreadable response") | some a ↦ ok a ]
]

-- `checkpoint`: that there is none is no error.
unfoldable pub checkpoint {ℓ} : {A : Type ℓ} → Fetched A → Fetched (Option A)
checkpoint (ok cp) = ok (some cp)
checkpoint (err e) = if is_not_found e then ok none else err e

pub data Decision : Type 0 where
  approved rejected expired : Decision

pub record Gate : Type 0 where
  pub seq : ℕ
  pub action : String
  pub expires_at : ℕ
  pub state : String
  pub decision : Option Decision
  pub reviewer : Option String
  pub reviewer_principal : Option String
  pub attested : Bool
  pub note : Option String

unfoldable pub is_pending : Gate → Bool
is_pending gate = ite (dec_text gate.state "pending") true false

pub record Resolution : Type 0 where
  pub seq : ℕ
  pub decision : Decision
  pub reviewer : Option String
  pub note : Option String
  pub attested : Bool

-- What `await_gate` gives for a gate that is no longer pending.
unfoldable pub decided : ℕ → Gate → Fetched Resolution
decided seq gate = elim gate.decision [
  | none ↦ err (protocol "resolved gate carries no decision")
  | some decision ↦ ok (record {
    seq = seq;
    decision = decision;
    reviewer = gate.reviewer;
    note = gate.note;
    attested = gate.attested;
  })
]

-- Milliseconds.
abbrev pub first_delay : ℕ
first_delay = 250

unfoldable pub back_off : ℕ → ℕ
back_off delay = min (delay * 2) 5000

-- `await_gate` from the `i`th request on, with the delays it sleeps for; `none` when the fuel is
-- spent.
unfoldable pub await_from :
    (ℕ → Fetched Gate) → ℕ → ℕ → ℕ → ℕ → Option (Fetched Resolution × List ℕ)
await_from approval seq zero i delay = none
await_from approval seq (suc fuel) i delay =
    let rest = await_from approval seq fuel (suc i) (back_off delay) in
    elim (approval i) [
      | err e ↦ some (err e, [])
      | ok gate ↦
          if is_pending gate
          then elim rest [ none ↦ none | some (res, delays) ↦ some (res, delay ∷ delays) ]
          else some (decided seq gate, [])
    ]

unfoldable pub await_gate : (ℕ → Fetched Gate) → ℕ → ℕ → Option (Fetched Resolution × List ℕ)
await_gate approval seq fuel = await_from approval seq fuel 0 first_delay

module _ (p : Platform) where
  -- The answers to `events_from(from, limit)`, by the number of the request.
  abbrev pub Server : Type 0
  Server = (i from limit : ℕ) → Fetched (List (RunEvent p))

  unfoldable pub next_from : ℕ → List (RunEvent p) → ℕ
  next_from from [] = from
  next_from from (e ∷ es) = ((last_or e es).seq + 1) % u64_mod

  -- The loop of `events_paged` from the `i`th request on; `none` when the fuel is spent.
  unfoldable pub paged_from :
      Server → ℕ → ℕ → ℕ → ℕ → List (RunEvent p) → Option (Fetched (List (RunEvent p)))
  paged_from events_from page zero i from all = none
  paged_from events_from page (suc fuel) i from all = elim (events_from i from page) [
    | err e ↦ some (err e)
    | ok batch ↦
        let rest = paged_from events_from page fuel (suc i) (next_from from batch) (all ++ batch) in
        if ltb (length batch) page then some (ok (all ++ batch)) else rest
  ]

  unfoldable pub events_paged : Server → ℕ → ℕ → Option (Fetched (List (RunEvent p)))
  events_paged events_from page fuel = paged_from events_from page fuel 0 0 []

  unfoldable pub events : Server → ℕ → Option (Fetched (List (RunEvent p)))
  events events_from fuel = events_paged events_from 1000 fuel

  unfoldable pub verified_events : Server → ℕ → Option (Fetched (List (RunEvent p)))
  verified_events events_from fuel = elim (events events_from fuel) [
    | none ↦ none
    | some (err e) ↦ some (err e)
    | some (ok es) ↦ elim (verify_chain p es) [
      | Chain.err e ↦ some (err (chain e))
      | Chain.ok report ↦ some (ok es)
    ]
  ]
