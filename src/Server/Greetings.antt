-- ===== src/Server/Greetings.antt =====
-- server.rs: what two pools write to each other in a handshake is read as it was meant.
use hot_potato.Prelude.{◌≡◌, refl, ap, String, none, some, List, [], ◌∷◌, map, Assoc, lookup}
use hot_potato.Server.Rpc.{peer_accept, peer_register}
use hot_potato.Server.Wire.{
  Json, IsFaithful, and_then, or_nothing, RpcRequest, text, texts, strings, peer_params_of,
  read_request,
}
use hot_potato.Server.Links.{text_field}

module _ (J : Json) where
  agents_value : List String → J.Value
  agents_value agents = J.array (map J.string agents)

  -- What `peer/join` sends to the inviting pool.
  unfoldable pub accept_rpc : String → String → String → List String → RpcRequest J
  unfolding agents_value
  accept_rpc code url name agents = record {
    id = some (J.number 1);
    method = "peer/accept";
    params = J.object (
        ("code", J.string code)
        ∷ ("url", J.string url)
        ∷ ("name", J.string name)
        ∷ ("agents", agents_value agents)
        ∷ []);
  }

  -- What `peer/accept` sends back to the joining pool.
  unfoldable pub register_rpc : String → String → List String → RpcRequest J
  unfolding agents_value
  register_rpc name url agents = record {
    id = some (J.number 1);
    method = "peer/register";
    params =
        J.object
          (("name", J.string name) ∷ ("url", J.string url) ∷ ("agents", agents_value agents) ∷ []);
  }

  module _ (faithful : IsFaithful J) where
    strings-map : (ss : List String) → strings J (map J.string ss) ≡ ss
    unfolding strings
    strings-map [] = refl
    strings-map (s ∷ ss) = rw (faithful.as_str-string s, strings) (ap (λ l. s ∷ l) (strings-map ss))

    no_field :
        (k : String) (fields : Assoc J.Value)
        → lookup k fields ≡ none
        → text J k (J.object fields) ≡ none
    unfolding text
    no_field k fields e = rw (faithful.get-object k fields) (rw (e, and_then) refl)

    texts_field :
        (k : String) (ss : List String) (fields : Assoc J.Value)
        → lookup k fields ≡ some (agents_value ss)
        → texts J k (J.object fields) ≡ ss
    unfolding texts agents_value or_nothing
    texts_field k ss fields e =
        rw (faithful.get-object k fields)
          (rw (e, and_then) (rw (faithful.as_array-array (map J.string ss)) (strings-map ss)))

    accept_params :
        (code url name : String) (agents : List String)
        → peer_params_of J (accept_rpc code url name agents).params
          ≡ record { code = some code; url = some url; name = some name; agents = agents }
    unfolding peer_params_of accept_rpc lookup
    accept_params code url name agents =
        let fs : Assoc J.Value =
          ("code", J.string code)
          ∷ ("url", J.string url)
          ∷ ("name", J.string name)
          ∷ ("agents", agents_value agents)
          ∷ [] in
        rw
          (
            text_field J faithful "code" code fs refl,
            text_field J faithful "url" url fs refl,
            text_field J faithful "name" name fs refl,
            texts_field "agents" agents fs refl,
          )
          refl

    register_params :
        (name url : String) (agents : List String)
        → peer_params_of J (register_rpc name url agents).params
          ≡ record { code = none; url = some url; name = some name; agents = agents }
    unfolding peer_params_of register_rpc lookup
    register_params name url agents =
        let fs : Assoc J.Value =
          ("name", J.string name) ∷ ("url", J.string url) ∷ ("agents", agents_value agents) ∷ [] in
        rw
          (
            no_field "code" fs refl,
            text_field J faithful "url" url fs refl,
            text_field J faithful "name" name fs refl,
            texts_field "agents" agents fs refl,
          )
          refl

    -- What the two pools write to each other in a handshake is read as the method that is meant,
    -- with the code, URL, name and agents that were written.
    pub handshake-read_request :
        (code url name : String) (agents : List String)
        → (read_request J (accept_rpc code url name agents)
            ≡ peer_accept
                (record { code = some code; url = some url; name = some name; agents = agents }))
          × (read_request J (register_rpc name url agents)
              ≡ peer_register
                  (record { code = none; url = some url; name = some name; agents = agents }))
    unfolding read_request lookup accept_rpc register_rpc
    handshake-read_request code url name agents = (
      ap peer_accept (accept_params code url name agents),
      ap peer_register (register_params name url agents),
    )
