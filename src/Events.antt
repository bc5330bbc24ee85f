-- ===== src/Events.antt =====
-- crates/tideline-server/src/events.rs: what the server reports of a tenant's streams. `offered` is what went
-- to the channel of the reporter, in order; the channel may drop it, and the reporter sends it on.
use tideline.Base.{
  ℕ, String, Bool, Option, none, some, List, [], ◌∷◌, ◌++◌, dec_text, if◌then◌else◌,
}
use tideline.Base.Json.{Value, Fields, object, field, no_fields, string, number, bool}
use tideline.Base.Table
use tideline.Base.Table.{Table}
use tideline.Proto.Canon.{unwrap_or}

pub record Tenant : Type 0 where
  pub user_id : String
  pub org_id : Option String

unfoldable pub namespace : Tenant → String
namespace t = unwrap_or t.user_id t.org_id

pub data Kind : Type 0 where
  created : Kind
  tokens : (count last_offset : ℕ) → Kind
  sub_connected : (resumed : Bool) (from : ℕ) (transport : String) → Kind
  sub_disconnected : Kind
  gap : (from : ℕ) → Kind
  completed : Kind
  errored : (message : String) → Kind

pub record Msg : Type 0 where
  pub tenant : Tenant
  pub stream_id : String
  pub kind : Kind

pub record Events : Type 0 where
  pub enabled : Bool
  pub offered : List Msg
  pub owners : Table String (Tenant × String)

-- `Events::new`, by whether there is a URL to report to.
abbrev pub new : Bool → Events
new enabled = record { enabled = enabled; offered = []; owners = [] }

unfoldable pub send : Events → Tenant → String → Kind → Events
send ev tenant plain_id kind =
    if ev.enabled
    then record ev {
      offered = ev.offered ++ record { tenant = tenant; stream_id = plain_id; kind = kind } ∷ [];
    }
    else ev

-- `entry(..).or_insert_with(..)`
unfoldable pub set_owner : Events → String → Tenant → String → Events
set_owner ev key tenant plain_id =
    if ev.enabled
    then elim (Table.get dec_text key ev.owners) [
      | some _ ↦ ev
      | none ↦ record ev { owners = Table.insert dec_text key (tenant, plain_id) ev.owners }
    ]
    else ev

unfoldable pub owner : Events → String → Option (Tenant × String)
owner ev key = if ev.enabled then Table.get dec_text key ev.owners else none

unfoldable pub forget : Events → String → Events
forget ev key = record ev { owners = Table.remove dec_text key ev.owners }

-- What is reported under a key goes to its owner, if it has one.
unfoldable pub report : Events → String → Kind → Events
report ev key kind = elim (owner ev key) [ none ↦ ev | some (t, plain) ↦ send ev t plain kind ]

unfoldable pub report_completed : Events → String → Events
report_completed ev key = forget (report ev key completed) key

unfoldable pub report_errored : Events → String → String → Events
report_errored ev key message = forget (report ev key (errored message)) key

-- The part of an object that the kind gives. The fields stand as they are inserted; the map of
-- serde_json prints them by key.
unfoldable pub kind_fields : Kind → Fields
kind_fields created = field "type" (string "stream.created") no_fields
kind_fields (tokens count last_offset) =
    field "type" (string "tokens")
      (field "count" (number count) (field "lastOffset" (number last_offset) no_fields))
kind_fields (sub_connected resumed from transport) = field "type" (string "subscriber.connected") (
    field "resumed" (bool resumed)
      (field "from" (number from) (field "transport" (string transport) no_fields)))
kind_fields sub_disconnected = field "type" (string "subscriber.disconnected") no_fields
kind_fields (gap from) = field "type" (string "gap") (field "from" (number from) no_fields)
kind_fields completed = field "type" (string "stream.completed") no_fields
kind_fields (errored message) =
    field "type" (string "stream.errored") (field "message" (string message) no_fields)

unfoldable pub org_fields : Option String → Fields → Fields
org_fields none rest = rest
org_fields (some org) rest = field "orgId" (string org) rest

unfoldable pub to_json : Msg → Value
to_json m = object (
    field "userId" (string m.tenant.user_id)
      (org_fields m.tenant.org_id (field "streamId" (string m.stream_id) (kind_fields m.kind))))
