-- ===== src/Memory/Backend.antt =====
-- store/memory.rs: `impl BusStore for InMemoryStore`.
use hot_potato.Store.Interface.{BusStore}
use hot_potato.Memory.Defs
use hot_potato.Memory.Defs.{MemoryStore}

abbrev pub memory_backend : BusStore
memory_backend = record {
  State = MemoryStore;
  push = Defs.push;
  poll = Defs.poll;
  mark_delivered = Defs.mark_delivered;
  mark_pushing = Defs.mark_pushing;
  mark_push_ok = Defs.mark_push_ok;
  mark_push_failed = Defs.mark_push_failed;
  reclaim_stale_pushing = Defs.reclaim_stale_pushing;
  mark_dead = Defs.mark_dead;
  revive_auth_dead = Defs.revive_auth_dead;
  mark_read = Defs.mark_read;
  peek = Defs.peek;
  ack = Defs.ack;
  sent_by = Defs.sent_by;
  archive = Defs.archive;
  delete_one = Defs.delete_one;
  delete_all = Defs.delete_all;
  list_all = Defs.list_all;
  register = Defs.register;
  unregister = Defs.unregister;
  agents = Defs.agents_of;
}
