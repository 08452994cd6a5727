-- ===== src/Tests/Refresh.antt =====
-- The endpoint refresh-token and the retired token endpoint at concrete requests.
use lodestar_server.Prelude.{none, some, [], ◌∷◌}
use lodestar_server.Auth.Session.{Session}
use lodestar_server.Auth.RefreshEndpoint.{RefreshRequest}

abbrev session : Session
session = ("app", record { current_member_id = "m"; members = [] }) ∷ []

abbrev request : RefreshRequest
request = record { app_id = "app"; body_fingerprint = none; cookie_fingerprint = some "b" }
