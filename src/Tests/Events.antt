-- ===== src/Tests/Events.antt =====
-- Insertions and a delivery at concrete inputs.
use Prim.Native.String.{String}
use lodestar_server.Prelude.{ℕ, ◌≡◌, refl, [], ◌∷◌, some}
use lodestar_server.Events.Batch.{Obj, text, number, batch_insert}
use lodestar_server.Events.Invitations.{Tables}

abbrev first : Obj
first = ("title", text "a") ∷ ("size", number "2") ∷ []

abbrev second : Obj
second = ("title", text "b") ∷ ("rrule", text "r") ∷ []

-- A member that an object leaves out is inserted as the text null.
missing_member :
    batch_insert "event" (first ∷ second ∷ []) (some ("id" ∷ []))
    ≡ "INSERT INTO event (title, size, rrule) VALUES ('a', 2, 'null'), ('b', 'null', 'r') RETURNING id"
unfolding batch_insert
missing_member = refl

-- No object at all still inserts a row.
empty_payload :
    batch_insert "event" [] (some ("id" ∷ [])) ≡ "INSERT INTO event DEFAULT VALUES RETURNING id"
unfolding batch_insert
empty_payload = refl

abbrev number_name : ℕ → String
number_name n = "id"

abbrev no_rows : Tables
no_rows = record { events = []; event_resources = []; resources = [] }
