-- ===== src/Server/Peers.antt =====
-- server.rs: the methods of the handshake between two pools.
use Prim.Native.String.{◌++◌ as str_append}
use hot_potato.Prelude.{
  ℕ, codes, String, Bool, true, false, ◌||◌, Option, none, some, List, [], ◌∷◌, map, str_eq,
  if◌then◌else◌,
}
use hot_potato.Message.{Time}
use hot_potato.Store.Interface.{BusStore}
use hot_potato.Deliver.{PushTransport, all_entries}
use hot_potato.Federation.{Peer}
use hot_potato.Handshake.{create_invite, consume_invite, add, merged_peers}
use hot_potato.Handshake.Codes.{payload_of}
use hot_potato.Server.Gate.{or_empty}
use hot_potato.Server.Pool.{
  ServerConfig, Pool, refused, invite, joined, accepted, peer_registered, peer_list, Handler,
}

-- The parameters of `peer/join`, `peer/accept` and `peer/register`.
pub record PeerParams : Type 0 where
  pub code : Option String
  pub url : Option String
  pub name : Option String
  pub agents : List String

-- What the inviting pool answers to `peer/accept`: a status that is no success, no answer, an
-- error, or its name, if it gives one, and its agents.
pub data Accepting : Type 0 where
  http_status : String → Accepting
  unreachable : String → Accepting
  rejected : String → Accepting
  welcome : Option String → List String → Accepting

abbrev no_agents : List String → Bool
no_agents [] = true
no_agents (a ∷ rest) = false

-- One of the fields that a peer needs is empty.
unfoldable pub is_incomplete : PeerParams → Bool
is_incomplete q = str_eq (or_empty q.url) "" || (str_eq (or_empty q.name) "" || no_agents q.agents)

abbrev peer_of : PeerParams → Peer
peer_of q = record { name = or_empty q.name; url = or_empty q.url; token = ""; agents = q.agents }

-- The address of the inviting pool. A character that is not ASCII is no symbol of the code, as a
-- code point or as bytes.
unfoldable pub inviter_url : (List ℕ → Option String) → String → Option String
inviter_url url_in code = elim (payload_of (codes code)) [ none ↦ none | some bytes ↦ url_in bytes ]

abbrev or_peer : Option String → String
or_peer none = "peer"
or_peer (some name) = name

module _ (B : BusStore) (T : PushTransport) where
  abbrev learn : Peer → Pool B T → Pool B T
  learn peer p = record p { dynamic_peers = add peer p.dynamic_peers }

  -- `peer/invite`. The code is drawn by the caller.
  unfoldable pub handle_invite : String → Time → Handler B T
  handle_invite code now p =
      let made = create_invite code now p.invites in (invite made.0, record p { invites = made.1 })

  unfoldable pub join_answered : String → Accepting → Handler B T
  join_answered url (http_status text) p =
      (refused 32001 (str_append "inviter replied HTTP " text), p)
  join_answered url (unreachable text) p = (
    refused 32001 (str_append "cannot reach inviter at " (str_append url (str_append ": " text))),
    p,
  )
  join_answered url (rejected text) p = (refused 32001 (str_append "inviter rejected: " text), p)
  join_answered url (welcome name agents) p = (
    joined (or_peer name),
    learn (record { name = or_peer name; url = url; token = ""; agents = agents }) p,
  )

  -- `peer/join`. `url_in` reads the address of the inviting pool from the bytes of a JSON text, and
  -- `present` presents the code there.
  unfoldable pub handle_join :
      (List ℕ → Option String) → (String → PeerParams → Accepting) → PeerParams → Handler B T
  unfolding join_answered
  handle_join url_in present q p =
      if str_eq (or_empty q.code) "" || is_incomplete q
      then (refused 32602 "code, url, name, agents[] all required", p)
      else elim (inviter_url url_in (or_empty q.code)) [
        | none ↦ (refused 32602 "cannot read inviter url from invite code", p)
        | some url ↦ join_answered url (present url q) p
      ]

  -- `peer/accept`: the code is used up before the other fields are looked at. The two requests that
  -- go back to the joining pool do not change this one.
  unfoldable pub handle_accept : ServerConfig → PeerParams → Time → Handler B T
  handle_accept config q now p =
      let used = consume_invite (or_empty q.code) now p.invites in
      let p' = record p { invites = used.1 } in
      if used.0
      then (if is_incomplete q then (refused 32602 "url, name, agents[] all required", p') else (
        accepted config.pool_name (map (λ e. e.agent) (all_entries p'.registry)),
        learn (peer_of q) p',
      ))
      else (refused 32001 "invalid, expired or already-used invite code", p')

  -- `peer/register`.
  unfoldable pub handle_peer_register : PeerParams → Handler B T
  handle_peer_register q p =
      if is_incomplete q
      then (refused 32602 "name, url, agents[] required", p)
      else (peer_registered, learn (peer_of q) p)

  -- `peer/list`.
  unfoldable pub handle_peers : ServerConfig → Handler B T
  handle_peers config p = (peer_list (merged_peers config.peers p.dynamic_peers), p)
