-- ===== src/Store/Interface.antt =====
-- store/mod.rs: the trait `BusStore`. A backend is a type of states with these operations; the clock
-- that an operation reads is an argument of it.
use hot_potato.Prelude.{ℕ, String, Bool, List}
use hot_potato.Error.{BusResult}
use hot_potato.Message.{Message, Time}

pub record BusStore : Type 1 where
  pub State : Type 0
  pub push : Message → State → BusResult (Unit {0}) × State
  pub poll : String → ℕ → Time → State → BusResult (List Message) × State
  pub mark_delivered : String → String → Time → State → BusResult Message × State
  pub mark_pushing : String → String → Time → State → BusResult Bool × State
  pub mark_push_ok : String → String → Time → State → BusResult Message × State
  pub mark_push_failed : String → String → String → Time → State → BusResult Message × State
  pub reclaim_stale_pushing : String → String → String → Time → State → BusResult Message × State
  pub mark_dead : String → String → String → Time → State → BusResult Message × State
  pub revive_auth_dead : String → Time → State → BusResult (List Message) × State
  pub mark_read : String → String → Time → State → BusResult Message × State
  pub peek : String → State → BusResult (List Message)
  pub ack : String → String → String → Time → State → BusResult Message × State
  pub sent_by : String → State → BusResult (List Message)
  pub archive : State → BusResult (List Message)
  pub delete_one : String → State → BusResult Message × State
  pub delete_all : State → BusResult ℕ × State
  pub list_all : State → BusResult (List Message)
  pub register : String → State → BusResult (Unit {0}) × State
  pub unregister : String → State → BusResult (Unit {0}) × State
  pub agents : State → BusResult (List String)
