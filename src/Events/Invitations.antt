-- ===== src/Events/Invitations.antt =====
-- src/event/event.service.ts: inserting, inviting and delivering. A table holds its rows with their ids;
-- an insertion of VALUES adds a row for each object, and one of DEFAULT VALUES adds an empty row.
pub mod Delivered
use lodestar_server.Prelude.{
  if◌then◌else◌, ℕ, zero, suc, ◌+◌, String, Bool, ◌&&◌, Option, none, some, List, [], ◌∷◌, ◌++◌,
  map, length, find_first, ◌==◌,
}
use lodestar_server.Events.Batch.{Obj, Val, text, get_unique_keys}

abbrev pub Rows : Type 0
Rows = List (String × Obj)

pub record Resource : Type 0 where
  pub id : String
  pub type : String
  pub target : String
  pub app_id : String

pub record Tables : Type 0 where
  pub events : Rows
  pub event_resources : Rows
  pub resources : List Resource

-- What batchInsert adds: `keysString === '()'` where no object has a member.
abbrev pub added : List String → List Obj → List Obj
added [] payload = [] ∷ []
added (k ∷ ks) payload = payload

-- The ids that the database draws, by the number of the row.
abbrev pub numbered : (ℕ → String) → ℕ → List Obj → Rows
numbered ids n [] = []
numbered ids n (o ∷ os) = (ids n, o) ∷ numbered ids (n + 1) os

abbrev pub ids_of_rows : Rows → List String
ids_of_rows rows = map (λ r. r.0) rows

unfoldable pub insert_rows : (ℕ → String) → List Obj → Rows → List String × Rows
unfolding get_unique_keys
insert_rows ids payload rows =
    let new = numbered ids (length rows) (added (get_unique_keys payload) payload) in
    (ids_of_rows new, rows ++ new)

-- `{ ...event, app_id: appId }`: the member is set, in its place where there is one.
abbrev pub with_member : String → Val → Obj → Obj
with_member key v [] = (key, v) ∷ []
with_member key v (m ∷ ms) =
    let rest = with_member key v ms in if m.0 == key then (key, v) ∷ ms else m ∷ rest

abbrev with_members : Obj → Obj → Obj
with_members [] o = o
with_members (m ∷ ms) o = with_members ms (with_member m.0 m.1 o)

-- `{ event_id: eventId, ...eventResource }` for every event and resource.
abbrev invitations_of : String → List Obj → List Obj
invitations_of event_id [] = []
invitations_of event_id (r ∷ rs) =
    with_members r (("event_id", text event_id) ∷ []) ∷ invitations_of event_id rs

abbrev invitations : List String → List Obj → List Obj
invitations [] resources = []
invitations (e ∷ es) resources = invitations_of e resources ++ invitations es resources

unfoldable pub find_resource : String → String → List Resource → Option Resource
find_resource type target rs = find_first (λ r. (r.type == type) && (r.target == target)) rs

-- `Array(amount).fill(...)`
abbrev pub copies : ℕ → Obj → List Obj
copies zero o = []
copies (suc n) o = o ∷ copies n o

abbrev pub resource_rows : String → List String → List Obj
resource_rows resource_id [] = []
resource_rows resource_id (e ∷ es) =
    (("event_id", text e) ∷ ("temporally_exclusive_resource_id", text resource_id) ∷ [])
    ∷ resource_rows resource_id es

module _ (ids : ℕ → String) where
  -- EventService.insertEvents
  unfoldable pub insert_events : String → List Obj → Tables → List String × Tables
  unfolding insert_rows
  insert_events app_id events t =
      let result = insert_rows ids (map (with_member "app_id" (text app_id)) events) t.events in
      (result.0, record t { events = result.1 })

  -- EventService.insertEventResources
  unfoldable pub insert_event_resources : List Obj → Tables → List String × Tables
  unfolding insert_rows
  insert_event_resources rows t =
      let result = insert_rows ids rows t.event_resources in
      (result.0, record t { event_resources = result.1 })

  -- EventService.inviteResource
  unfoldable invite_resource : List String → List Obj → Tables → List String × Tables
  unfolding insert_event_resources
  invite_resource event_ids resources t = insert_event_resources (invitations event_ids resources) t

  -- upsertTemprotallyExclusiveResource: the row of the type and the target, added where there is none.
  unfoldable pub upsert_resource : String → String → String → Tables → String × Tables
  unfolding find_resource
  upsert_resource type app_id target t = elim (find_resource type target t.resources) [
    | some r ↦ (r.id, t)
    | none ↦
        let r : Resource = record {
          id = ids (length t.resources);
          type = type;
          target = target;
          app_id = app_id;
        } in
        (r.id, record t { resources = t.resources ++ (r ∷ []) })
  ]

  -- EventService.deliverEvents: the ids of the events and of their resources.
  unfoldable pub deliver_events :
      String → String → String → ℕ → String → Tables → (List String × List String) × Tables
  unfolding upsert_resource insert_events insert_event_resources
  deliver_events source_type source_target member_id amount app_id t =
      let (resource_id, t1) = upsert_resource "member" app_id member_id t in
      let source = ("source_type", text source_type) ∷ ("source_target", text source_target) ∷ [] in
      let (event_ids, t2) = insert_events app_id (copies amount source) t1 in
      let (resource_ids, t3) = insert_event_resources (resource_rows resource_id event_ids) t2 in
      ((event_ids, resource_ids), t3)
