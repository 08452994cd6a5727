-- ===== src/Auth/Session.antt =====
-- src/session.ts: rotateSessionIdentity. The session is the account scopes that it holds, by app; none
-- where the request has no session. Whether the store regenerates and saves is an argument.
use lodestar_server.Prelude.{
  String, Bool, true, false, Option, none, some, List, [], ◌∷◌, if◌then◌else◌,
}
use lodestar_server.Auth.Payload.{PublicMember}

-- What the sign-in keeps for an app.
pub record Account : Type 0 where
  pub current_member_id : String
  pub members : List PublicMember

abbrev pub Session : Type 0
Session = List (String × Account)

-- How the session store answers to regenerate and to save.
pub record SessionStore : Type 0 where
  pub regenerates : Bool
  pub saves : Bool

-- rotateSessionIdentity: whether it ends without E_SESSION, and the request's session then.
unfoldable pub rotate_session_identity :
    SessionStore → String → Account → Option Session → Bool × Option Session
rotate_session_identity st key identity session =
    if st.regenerates
    then if st.saves then (true, some ((key, identity) ∷ [])) else (false, none)
    else (false, none)
