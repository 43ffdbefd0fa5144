-- ===== src/Server/Gate.antt =====
-- server.rs: the login of the dashboard, and the gate before every other method.
use Prim.Native.String.{◌++◌ as str_append}
use hot_potato.Prelude.{
  String, Bool, true, false, not, ◌&&◌, ◌||◌, Option, none, some, List, ◌∷◌, any, str_eq,
  if◌then◌else◌,
}
use hot_potato.Store.Interface.{BusStore}
use hot_potato.Deliver.{PushTransport}
use hot_potato.Server.Pool.{
  ServerConfig, HeaderMap, Pool, session, invalid_credentials, unauthorized, Handler,
}

abbrev pub or_empty : Option String → String
or_empty none = ""
or_empty (some s) = s

-- `x == Some(t)` on a header.
abbrev pub is_text : Option String → String → Bool
is_text none t = false
is_text (some s) t = str_eq s t

-- `"Bearer {t}"` is the header, if a token is set; otherwise `false`.
unfoldable pub is_authed : ServerConfig → HeaderMap → Bool
is_authed config headers = elim config.bearer_token [
  | none ↦ false
  | some t ↦ is_text headers.authorization (str_append "Bearer " t)
]

unfoldable pub has_session : Option String → List String → Bool
has_session none sessions = false
has_session (some sid) sessions = any (λ s. str_eq s sid) sessions

abbrev is_set : Option String → Bool
is_set none = false
is_set (some t) = true

module _ {B : BusStore} {T : PushTransport} where
  -- `dashboard/login`. The fresh id of the session is drawn by the caller.
  unfoldable pub login : String → ServerConfig → Option String → Option String → Handler B T
  login sid config username password p =
      if str_eq (or_empty username) config.dashboard_user
        && str_eq (or_empty password) config.dashboard_password
      then (session sid, record p { sessions = sid ∷ p.sessions })
      else (invalid_credentials, p)

  -- The test at the head of `rpc`, for the other methods.
  unfoldable pub passes_gate : ServerConfig → HeaderMap → Pool B T → Bool
  unfolding is_authed has_session
  passes_gate config headers p =
      not (is_set config.bearer_token)
      || (is_authed config headers || has_session headers.dashboard_session p.sessions)

  unfoldable pub gated : ServerConfig → HeaderMap → Handler B T → Handler B T
  gated config headers handle p =
      if passes_gate config headers p then handle p else (unauthorized, p)
