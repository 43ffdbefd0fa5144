-- ===== src/Server/Locked.antt =====
-- server.rs: what a client without a credential can do.
use Prim.Native.String.{◌++◌ as str_append}
use hot_potato.Prelude.{
  ◌≡◌, refl, ◌⊎◌, inl, inr, String, false, ◌&&◌, some, List, [], ◌∷◌, All, str_eq,
}
use hot_potato.Message.{Time}
use hot_potato.Store.Interface.{BusStore}
use hot_potato.Deliver.{PushTransport}
use hot_potato.Server.Pool.{ServerConfig, HeaderMap, Pool, Reply, unauthorized, invalid_credentials}
use hot_potato.Server.Gate.{is_text, is_authed, has_session, or_empty, login, passes_gate, gated}
use hot_potato.Server.Rpc.{Request, World, rpc, dashboard_login}

-- A request with its headers, at its time.
pub record Attempt : Type 0 where
  pub world : World
  pub at : Time
  pub headers : HeaderMap
  pub request : Request

-- The headers carry neither the token nor a session of the list.
pub record IsStranger (t : String) (sessions : List String) (headers : HeaderMap) : Type 0 where
  pub no_token : is_text headers.authorization (str_append "Bearer " t) ≡ false
  pub no_session : has_session headers.dashboard_session sessions ≡ false

-- Of a login: it has not the right name and password. Of any other request nothing.
abbrev pub Fails : ServerConfig → Request → Type 0
Fails config (dashboard_login username password) =
    (str_eq (or_empty username) config.dashboard_user
      && str_eq (or_empty password) config.dashboard_password)
    ≡ false
Fails config request = Unit

abbrev pub IsLockedOut : ServerConfig → String → List String → Attempt → Type 0
IsLockedOut config t sessions a = IsStranger t sessions a.headers × Fails config a.request

abbrev pub IsRefusal : Reply → Type 0
IsRefusal r = (r ≡ unauthorized) ⊎ (r ≡ invalid_credentials)

module _ (B : BusStore) (T : PushTransport) (config : ServerConfig) where
  -- The attempts one after the other: the answers, and the state in the end.
  unfoldable pub run : List Attempt → Pool B T → List Reply × Pool B T
  run [] p = ([], p)
  run (a ∷ later) p =
      let first = rpc B T a.world a.at config a.headers a.request p in
      let rest = run later first.1 in (first.0 ∷ rest.0, rest.1)

  gate_shut :
      (t : String) (headers : HeaderMap) (p : Pool B T)
      → config.bearer_token ≡ some t
      → IsStranger t p.sessions headers
      → passes_gate config headers p ≡ false
  unfolding passes_gate is_authed
  gate_shut t headers p locked stranger = rw (locked, stranger.no_token, stranger.no_session) refl

  refused :
      (t : String) (a : Attempt) (p : Pool B T)
      → config.bearer_token ≡ some t
      → IsLockedOut config t p.sessions a
      → IsRefusal (rpc B T a.world a.at config a.headers a.request p).0
        × ((rpc B T a.world a.at config a.headers a.request p).1 ≡ p)
  unfolding rpc gated login
  refused t a p locked (stranger, fails) = by_request a.request fails
    where
      by_request :
          (r : Request)
          → Fails config r
          → IsRefusal (rpc B T a.world a.at config a.headers r p).0
            × ((rpc B T a.world a.at config a.headers r p).1 ≡ p)
      by_request (dashboard_login username password) wrong = rw wrong (inr refl, refl)
      by_request r any_case = rw (gate_shut t a.headers p locked stranger) (inl refl, refl)

  -- With a token set, a client that has neither the token nor a session of the pool and that does
  -- not know the name and password of the dashboard gets nothing: whatever requests it makes,
  -- each is answered by a refusal, and the state in the end is the one before.
  pub run-IsLockedOut :
      (t : String) (tries : List Attempt) (p : Pool B T)
      → config.bearer_token ≡ some t
      → All (IsLockedOut config t p.sessions) tries
      → All IsRefusal (run tries p).0 × ((run tries p).1 ≡ p)
  unfolding run
  run-IsLockedOut t [] p locked out = (tt, refl)
  run-IsLockedOut t (a ∷ later) p locked (first, rest) =
      let (refusal, same) = refused t a p locked first in
      let after = run-IsLockedOut t later p locked rest in rw same ((refusal, after.0), after.1)
