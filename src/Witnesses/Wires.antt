-- ===== src/Witnesses/Wires.antt =====
-- Requests between two pools, and the table of peers, with JSON as a tree of values.
use mathlib.Core.Option
use hot_potato.Server.Listing.{pos}
use hot_potato.Prelude.{
  true, ◌≡◌, refl, ap, ◌↔◌, ◌≢◌, ◌⊎◌, String, ℕ, Option, none, some, List, [], ◌∷◌, Assoc, All,
  lookup,
}
use hot_potato.Error.{Result, ok}
use hot_potato.Federation.{Peer, forward_request}
use hot_potato.Federation.Table.{IsUsable, from_json, from_env, from_json-IsUsable}
use hot_potato.Server.Links.{forward_rpc, envelope_of, forward-read_request}
use hot_potato.Server.Rpc.{message_send}
use hot_potato.Server.Send.{SendParams, read_params}
use hot_potato.Server.Wire.{Json, IsFaithful, read_request}
use hot_potato.Witnesses.Fixtures.{waiting, fleet, depot, counting}
use hot_potato.Error.{BusError}
use hot_potato.Memory.Backend.{memory_backend}
use hot_potato.Memory.NoLoss.{has_letter}
use hot_potato.Server.Crossing.{forward-has_letter}
use hot_potato.Server.Pool.{ServerConfig, HeaderMap, forwarded}
use hot_potato.Server.Wire.{serve, result}
use hot_potato.Witnesses.Clients.{config, outside, pool}
use hot_potato.Witnesses.Pools.{accepts, waiting_sent}

mutual
  data Tree : Type 0 where
    nothing : Tree
    object : Fields → Tree
    words : String → Tree
    number : ℕ → Tree
    array : Items → Tree

  data Fields : Type 0 where
    end : Fields
    field : String → Tree → Fields → Fields

  data Items : Type 0 where
    stop : Items
    item : Tree → Items → Items

abbrev of_fields : Fields → Assoc Tree
of_fields end = []
of_fields (field k v rest) = (k, v) ∷ of_fields rest

abbrev to_fields : Assoc Tree → Fields
to_fields [] = end
to_fields ((k, v) ∷ rest) = field k v (to_fields rest)

abbrev of_items : Items → List Tree
of_items stop = []
of_items (item v rest) = v ∷ of_items rest

abbrev to_items : List Tree → Items
to_items [] = stop
to_items (v ∷ rest) = item v (to_items rest)

abbrev get : String → Tree → Option Tree
get k (object fs) = lookup k (of_fields fs)
get k v = none

abbrev as_str : Tree → Option String
as_str (words s) = some s
as_str v = none

abbrev as_u64 : Tree → Option ℕ
as_u64 (number n) = some n
as_u64 v = none

abbrev as_array : Tree → Option (List Tree)
as_array (array vs) = some (of_items vs)
as_array v = none

abbrev trees : Json
trees = record {
  Value = Tree;
  null = nothing;
  object = λ fs. object (to_fields fs);
  string = words;
  number = number;
  array = λ vs. array (to_items vs);
  get = get;
  as_str = as_str;
  as_u64 = as_u64;
  as_i64 = λ v. Option.map pos (as_u64 v);
  as_array = as_array;
}

fields_back : (fs : Assoc Tree) → of_fields (to_fields fs) ≡ fs
fields_back [] = refl
fields_back ((k, v) ∷ rest) = ap (λ l. (k, v) ∷ l) (fields_back rest)

items_back : (vs : List Tree) → of_items (to_items vs) ≡ vs
items_back [] = refl
items_back (v ∷ rest) = ap (λ l. v ∷ l) (items_back rest)

trees-IsFaithful : IsFaithful trees
trees-IsFaithful = record {
  get-object = λ k fs. ap (lookup k) (fields_back fs);
  as_str-string = λ s. refl;
  as_u64-number = λ n. refl;
  as_array-array = λ vs. ap some (items_back vs);
}

abbrev listed : String
listed = "[..]"

-- A JSON library that knows one text.
abbrev read_two : String → Result String (List Peer)
read_two raw = ok (fleet ∷ depot ∷ [])

from_json-IsUsable_example :
    ((from_json (λ s. s) read_two listed ≡ ok (fleet ∷ depot ∷ [])) ↔ (
      ((listed ≡ "") × ((fleet ∷ depot ∷ []) ≡ []))
      ⊎ ((listed ≢ "")
          × (read_two listed ≡ ok (fleet ∷ depot ∷ []))
          × All IsUsable (fleet ∷ depot ∷ []))))
    × All IsUsable (from_env (λ s. s) read_two (some listed))
from_json-IsUsable_example =
    from_json-IsUsable (λ s. s) read_two listed (some listed) (fleet ∷ depot ∷ [])

-- The home pool of Bob, without a token.
abbrev open_config : ServerConfig
open_config = record config { bearer_token = none; peers = []; pool_name = "fleet" }

abbrev from_home : HeaderMap
from_home = record { authorization = none; dashboard_session = none; potato_pool = some "home" }

abbrev print : BusError → String
print e = "error"

forwarded_accepted :
    (serve trees memory_backend counting print outside 200 open_config from_home
      (forward_rpc trees (forward_request fleet waiting "home"))
      pool).0.body
    ≡ result (forwarded "letter" "home")
unfolding serve hot_potato.Server.Rpc.rpc lookup hot_potato.Server.Gate.gated
    hot_potato.Server.Gate.passes_gate hot_potato.Server.Rpc.dispatch
    hot_potato.Server.Send.handle_send read_params hot_potato.Server.Wire.send_params_of
    hot_potato.Server.Links.forward_params hot_potato.Server.Send.send_envelope forward_request
    hot_potato.Server.Send.send_inbound hot_potato.Federation.inbound_checks
    hot_potato.Server.Send.register_shadow hot_potato.Bus.Defs.is_registered
    hot_potato.Bus.Defs.send_envelope hot_potato.Bus.Defs.send_guard hot_potato.Memory.Defs.push
    hot_potato.Memory.Defs.register hot_potato.Prelude.insert hot_potato.Message.new_message
    hot_potato.Federation.wire_hops hot_potato.Prelude.any hot_potato.Bus.Defs.register
forwarded_accepted = refl

forward-has_letter_example :
    ((q : SendParams) × (read_request trees
          (forward_rpc trees (forward_request fleet waiting "home"))
        ≡ message_send q)
      × (read_params q ≡ some (envelope_of waiting "home")))
    × (has_letter "bob" "letter"
          ((serve trees memory_backend counting print outside 200 open_config from_home
              (forward_rpc trees (forward_request fleet waiting "home"))
              pool).1
            ).post.bus.store
        ≡ true)
forward-has_letter_example =
    forward-has_letter trees trees-IsFaithful print counting outside 200 open_config from_home
      accepts fleet waiting "home" (forward_request fleet waiting "home") pool
      (forwarded "letter" "home") "letter" waiting_sent forwarded_accepted refl
