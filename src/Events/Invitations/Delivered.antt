-- ===== src/Events/Invitations/Delivered.antt =====
-- What deliverEvents of src/event/event.service.ts adds to the tables.
use lodestar_server.Prelude.{ℕ, String, ◌≡◌, some, List, ◌++◌, map, length}
use lodestar_server.Events.Invitations.{
  Rows, Tables, Resource, ids_of_rows, find_resource, resource_rows,
}

-- What a delivery adds: as many events as asked for, and for each of them a row of the resource.
pub record IsDelivered (t t' : Tables) (member_id : String) (amount : ℕ)
    (event_ids resource_ids : List String) : Type 0 where
  pub resource : Resource
  pub events : Rows
  pub rows : Rows
  pub is_member : find_resource "member" member_id t'.resources ≡ some resource
  pub events_added : t'.events ≡ t.events ++ events
  pub rows_added : t'.event_resources ≡ t.event_resources ++ rows
  pub are_events : ids_of_rows events ≡ event_ids
  pub are_rows : ids_of_rows rows ≡ resource_ids
  pub event_count : length events ≡ amount
  pub linked : map (λ r. r.1) rows ≡ resource_rows resource.id event_ids
