-- ===== src/Sled/Runs.antt =====
-- Histories of the store on disk: any calls, in any order, each of which may fail.
use hot_potato.Prelude.{◌≡◌, refl, ◌∙◌, subst, String, List, [], ◌∷◌}
use hot_potato.Message.{Message}
use hot_potato.Memory.Runs.{
  Call, push, poll, mark_delivered, mark_pushing, mark_push_ok, mark_push_failed,
  reclaim_stale_pushing, mark_dead, revive_auth_dead, mark_read, ack, delete_one, delete_all,
  register, unregister, PushesSatisfy,
}
use hot_potato.Memory.Changes.{SameEnvelope}
use hot_potato.Memory.Lives.{Moved}
use hot_potato.Sled.Letter.{
  Update, deliver_update, push_ok_update, push_failed_update, reclaim_update, dead_update,
  read_update, ack_update,
}
use hot_potato.Sled.Moves.{
  Moves, poll-Moved, revive-Moves, deliver-Moves, claim-Moves, push_ok-Moves, push_failed-Moves,
  reclaim-Moves, dead-Moves, read-Moves, ack-Moves,
}
use hot_potato.Sled.Tree.{Sled, SledStore, key}
use hot_potato.Sled.Defs
use hot_potato.Sled.Defs.{by_update, poll_loop, revive_loop, remove_loop, letter_keys, find_loop}
use hot_potato.Sled.Laws.{IsReliable}
use hot_potato.Sled.Keeps.{Keeps, HoldsOn}
use hot_potato.Sled.Steps.{
  InBox, by_update-HoldsOn, claim-HoldsOn, push-HoldsOn, revive-HoldsOn, poll-HoldsOn,
  delete_all-HoldsOn, delete_one-HoldsOn, register-HoldsOn, unregister-HoldsOn,
}

module _ (S : Sled) where
  unfoldable pub perform : Call → SledStore S → SledStore S
  perform (push msg) s = (Defs.push S msg s).1
  perform (poll agent limit now) s = (Defs.poll S agent limit now s).1
  perform (mark_delivered agent id now) s = (Defs.mark_delivered S agent id now s).1
  perform (mark_pushing agent id now) s = (Defs.mark_pushing S agent id now s).1
  perform (mark_push_ok agent id now) s = (Defs.mark_push_ok S agent id now s).1
  perform (mark_push_failed agent id reason now) s =
      (Defs.mark_push_failed S agent id reason now s).1
  perform (reclaim_stale_pushing agent id reason now) s =
      (Defs.reclaim_stale_pushing S agent id reason now s).1
  perform (mark_dead agent id reason now) s = (Defs.mark_dead S agent id reason now s).1
  perform (revive_auth_dead agent now) s = (Defs.revive_auth_dead S agent now s).1
  perform (mark_read agent id now) s = (Defs.mark_read S agent id now s).1
  perform (ack agent id text now) s = (Defs.ack S agent id text now s).1
  perform (delete_one id) s = (Defs.delete_one S id s).1
  perform delete_all s = (Defs.delete_all S s).1
  perform (register agent) s = (Defs.register S agent s).1
  perform (unregister agent) s = (Defs.unregister S agent s).1

  unfoldable pub run : List Call → SledStore S → SledStore S
  run [] s = s
  run (c ∷ cs) s = run cs (perform c s)

-- The agents whose scan finds the key.
abbrev pub BoxesOf : String → String → Type 0
BoxesOf k agent = InBox agent k

pub key-SameEnvelope : {m m' : Message} → SameEnvelope m m' → key m.receiver m ≡ key m'.receiver m'
unfolding key
key-SameEnvelope e = rw (e.receiver, e.created_at, e.id) refl

module _ (S : Sled) (L : IsReliable S) (P : String → Message → Type 0) (c : Call)
    (placed : (k : String) (m : Message) → P k m → k ≡ key m.receiver m)
    (keeps : (k : String) (m m' : Message) → Moved (BoxesOf k) c m m' → P k m → P k m') where
  step :
      {A : Type 0} (agent id : String) (f : Update A)
      → ((k : String) (m : Message) → InBox agent k → m.id ≡ id → Moves (BoxesOf k) c m f)
      → Keeps (InBox agent) id P f
  step agent id f moves k m out here named p e =
      let moved = moves k m here named out e in
      subst (λ k'. P k' out.0) (placed k m p ∙ key-SameEnvelope moved.envelope)
        (keeps k m out.0 moved p)

module _ (S : Sled) (L : IsReliable S) (P : String → Message → Type 0)
    (placed : (k : String) (m : Message) → P k m → k ≡ key m.receiver m) where
  pub perform-HoldsOn :
      (c : Call) (s : SledStore S)
      → ((k : String) (m m' : Message) → Moved (BoxesOf k) c m m' → P k m → P k m')
      → PushesSatisfy (λ r m. P (key r m) m) (c ∷ [])
      → HoldsOn S L P s.db
      → HoldsOn S L P (perform S c s).db
  unfolding perform Defs.mark_delivered Defs.mark_push_ok Defs.mark_push_failed
      Defs.reclaim_stale_pushing Defs.mark_dead Defs.mark_read Defs.ack
  perform-HoldsOn (push msg) s keeps p h = push-HoldsOn S L P msg s p.0 h
  perform-HoldsOn (poll agent limit now) s keeps p h =
      poll-HoldsOn S L P agent limit now s
        (λ k m here fit. keeps k m _ (poll-Moved (BoxesOf k) agent m here limit now fit)) h
  perform-HoldsOn (mark_pushing agent id now) s keeps p h =
      claim-HoldsOn S L P agent id now s
        (step S L P _ placed keeps agent id _
          (λ k m here named. claim-Moves (BoxesOf k) agent m here id named now))
        h
  perform-HoldsOn (revive_auth_dead agent now) s keeps p h =
      revive-HoldsOn S L P agent now s
        (λ id.
          step S L P _ placed keeps agent id _
            (λ k m here named. revive-Moves (BoxesOf k) agent m here now))
        h
  perform-HoldsOn (mark_delivered agent id now) s keeps p h =
      by_update-HoldsOn S L P agent id (deliver_update now) s
        (step S L P _ placed keeps agent id _
          (λ k m here named. deliver-Moves (BoxesOf k) agent m here id named now))
        h
  perform-HoldsOn (mark_push_ok agent id now) s keeps p h =
      by_update-HoldsOn S L P agent id (push_ok_update now) s
        (step S L P _ placed keeps agent id _
          (λ k m here named. push_ok-Moves (BoxesOf k) agent m here id named now))
        h
  perform-HoldsOn (mark_push_failed agent id reason now) s keeps p h =
      by_update-HoldsOn S L P agent id (push_failed_update reason) s
        (step S L P _ placed keeps agent id _
          (λ k m here named. push_failed-Moves (BoxesOf k) agent m here id named now reason))
        h
  perform-HoldsOn (reclaim_stale_pushing agent id reason now) s keeps p h =
      by_update-HoldsOn S L P agent id (reclaim_update reason) s
        (step S L P _ placed keeps agent id _
          (λ k m here named. reclaim-Moves (BoxesOf k) agent m here id named now reason))
        h
  perform-HoldsOn (mark_dead agent id reason now) s keeps p h =
      by_update-HoldsOn S L P agent id (dead_update reason) s
        (step S L P _ placed keeps agent id _
          (λ k m here named. dead-Moves (BoxesOf k) agent m here id named now reason))
        h
  perform-HoldsOn (mark_read agent id now) s keeps p h =
      by_update-HoldsOn S L P agent id (read_update now) s
        (step S L P _ placed keeps agent id _
          (λ k m here named. read-Moves (BoxesOf k) agent m here id named now))
        h
  perform-HoldsOn (ack agent id text now) s keeps p h =
      by_update-HoldsOn S L P agent id (ack_update text now) s
        (step S L P _ placed keeps agent id _
          (λ k m here named. ack-Moves (BoxesOf k) agent m here id named now text))
        h
  perform-HoldsOn (delete_one id) s keeps p h = delete_one-HoldsOn S L P id s h
  perform-HoldsOn delete_all s keeps p h = delete_all-HoldsOn S L P s h
  perform-HoldsOn (register agent) s keeps p h = register-HoldsOn S L P agent s h
  perform-HoldsOn (unregister agent) s keeps p h = unregister-HoldsOn S L P agent s h
