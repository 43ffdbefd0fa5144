-- ===== src/Handshake.antt =====
-- handshake.rs: the one-time invites, the peers learned by a handshake, and the merged peer table of
-- `peer/list` in server.rs.
pub mod Invites
pub mod Mirror
pub mod Learned
pub mod Base64
pub mod Codes
use hot_potato.Prelude.{
  ℕ, ◌+◌, ◌*◌, ◌^◌, ltb, String, Bool, true, false, not, ◌&&◌, Option, none, some, List, [], ◌∷◌,
  ◌++◌, str_eq, is_some, filter, find, any, if◌then◌else◌, length,
}
use hot_potato.Message.{Time}
use hot_potato.Federation.{Peer, contains}

-- `chrono::Duration::minutes(10)`, in nanoseconds.
abbrev pub invite_ttl : ℕ
invite_ttl = 600 * 10 ^ 9

pub record Invite : Type 0 where
  pub code : String
  pub created_at : Time
  pub expires_at : Time
  pub used : Bool

-- `Invite::new`: the code is drawn by the caller.
abbrev pub new_invite : String → Time → Invite
new_invite code now = record {
  code = code;
  created_at = now;
  expires_at = now + invite_ttl;
  used = false;
}

abbrev pub valid : Time → Invite → Bool
valid now inv = not inv.used && ltb now inv.expires_at

unfoldable pub create_invite : String → Time → List Invite → Invite × List Invite
create_invite code now store =
    let inv = new_invite code now in (inv, filter (valid now) store ++ inv ∷ [])

-- `iter_mut().find(..)` and `inv.used = true` on what it finds: whether there was one, and the list.
unfoldable pub consume_invite : String → Time → List Invite → Bool × List Invite
consume_invite code now [] = (false, [])
consume_invite code now (inv ∷ rest) =
    let others = consume_invite code now rest in
    if str_eq inv.code code && valid now inv
    then (true, record inv { used = true } ∷ rest)
    else (others.0, inv ∷ others.1)

-- `DynamicPeers::add` in memory.
unfoldable pub add : Peer → List Peer → List Peer
add peer inner = filter (λ p. not (str_eq p.name peer.name)) inner ++ peer ∷ []

unfoldable pub contains_agent : String → List Peer → Option Peer
contains_agent agent inner = find (λ p. contains p agent) inner

-- `peer/list`: the learned peers follow the configured ones, each name once.
unfoldable pub merged_peers : List Peer → List Peer → List Peer
merged_peers env [] = env
merged_peers env (p ∷ ps) =
    merged_peers (if any (λ e. str_eq e.name p.name) env then env else env ++ p ∷ []) ps
