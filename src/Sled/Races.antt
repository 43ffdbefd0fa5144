-- ===== src/Sled/Races.antt =====
-- store/sled_store.rs: two threads in `update_one`, which reads a letter and writes it back
-- without a lock.
use Prim.Native.String.{◌++◌ as str_append}
use hot_potato.Prelude.{
  ◌≡◌, ◌≢◌, refl, sym, ap, ◌∙◌, subst, inl, inr, String, Bool, true, List, [], ◌∷◌, str_eq, arith,
  Bool-cases,
}
use hot_potato.Error.{BusError, Result, BusResult, ok, err, ok_inj, err≢ok, Result-cases}
use hot_potato.Message.{Message, Time}
use hot_potato.State.{push_started}
use hot_potato.State.Table.{apply-eq-verdict}
use hot_potato.Sled.Letter.{Update, claim_update}
use hot_potato.Sled.Tree.{Sled, key, read_letter, write_letter, update_loop, update_one}

-- Every write succeeds.
pub record IsWritable (S : Sled) : Type 0 where
  pub written :
      (k : String) (m : Message) (db : S.Tree) → (db' : S.Tree) × (write_letter S k m db ≡ ok db')

won :
    (now now' : Time) (m : Message) (a b : Message × Bool)
    → claim_update now m ≡ ok a
    → claim_update now' m ≡ ok b
    → a.1 ≡ true
    → b.1 ≡ true
unfolding claim_update
won now now' m a b h e w = ground (arith, apply-eq-verdict m.status push_started)

never : (now : Time) (m : Message) (x : BusError) → claim_update now m ≢ err x
unfolding claim_update
never now m x e = err≢ok (sym e)

module _ (S : Sled) where
  -- `update_one` of a thread whose scan saw the tree `seen`, which others had made `db` when it came
  -- to write.
  unfoldable pub late_update :
      {A : Type 0}
      → String
      → String
      → Update A
      → S.Tree
      → S.Tree
      → BusResult ((Message × A) × S.Tree)
  late_update agent id f seen db =
      update_loop S f id (S.scan_prefix (str_append agent "::") seen) db

  -- Whether a claim wins depends on the status alone.
  related :
      (now now' : Time) (m : Message) (a : Message × Bool)
      → claim_update now m ≡ ok a
      → (b : Message × Bool) × (claim_update now' m ≡ ok b) × (a.1 ≡ true → b.1 ≡ true)
  related now now' m a h = elim (Result-cases (claim_update now' m)) [
    | inl (b, e) ↦ (b, e, won now now' m a b h e)
    | inr (x, e) ↦ absurd (never now' m x e)
  ]

  -- Two updates run over the same items, on whatever trees: how their results on one letter relate
  -- is how their results relate.
  module _ {A B : Type 0} (f : Update A) (g : Update B) (R : Message × A → Message × B → Type 0)
      (related : (m : Message) (a : Message × A)
        → f m ≡ ok a
        → (b : Message × B) × (g m ≡ ok b) × R a b)
      (writable : IsWritable S) (id : String) where
    late_loop :
        (items : List (Result String (String × S.Value))) (db db' : S.Tree) (a : Message × A)
        (t : S.Tree)
        → update_loop S f id items db ≡ ok (a, t)
        → (b : Message × B) × (u : S.Tree) × (update_loop S g id items db' ≡ ok (b, u))
          × (write_letter S (key b.0.receiver b.0) b.0 db' ≡ ok u)
          × R a b
    unfolding update_loop
    late_loop [] db db' a t h = absurd (err≢ok h)
    late_loop (item ∷ items) db db' a t h = elim (Result-cases (read_letter S item)) [
      | inr (e, r) ↦ absurd (err≢ok (rw r at h))
      | inl (km, r) ↦ elim (Bool-cases (str_eq km.1.id id)) [
        | inr other ↦
            let (b, u, done, w, q) = late_loop items db db' a t (rw (r, other) at h) in
            (b, u, rw (r, other) done, w, q)
        | inl same ↦ elim (Result-cases (f km.1)) [
          | inr (e, c) ↦ absurd (err≢ok (rw (r, same, c) at h))
          | inl (out, c) ↦
              let (t', w') = writable.written (key out.0.receiver out.0) out.0 db in
              let won : out ≡ a = ap (λ q. q.0) (ok_inj (rw (r, same, c, w') at h)) in
              let (b, again, q) = related km.1 a (c ∙ ap ok won) in
              let (u, w) = writable.written (key b.0.receiver b.0) b.0 db' in
              (b, u, rw (r, same, again, w) refl, w, q)
        ]
      ]
    ]

  -- If every write succeeds: of two claims of a letter, where the second thread has scanned the tree
  -- before the first one wrote and writes after it, both win if the first one does.
  pub mark_pushing-race :
      (writable : IsWritable S) (agent id : String) (now now' : Time) (db : S.Tree) (x : Message)
      (t : S.Tree)
      → update_one S agent id (claim_update now) db ≡ ok ((x, true), t)
      → (y : Message) × (u : S.Tree) × (late_update agent id (claim_update now') db t
          ≡ ok ((y, true), u))
  unfolding late_update update_one
  mark_pushing-race writable agent id now now' db x t h =
      let (b, u, done, w, won) =
        late_loop (claim_update now) (claim_update now') (λ a b. a.1 ≡ true → b.1 ≡ true)
          (related now now') writable id (S.scan_prefix (str_append agent "::") db) db t (x, true) t
          h in
      (b.0, u, done ∙ ap (λ w. ok ((b.0, w), u)) (won refl))

  -- If every write succeeds: an update whose thread has scanned the tree `seen` answers as it would
  -- have answered on `seen`, and leaves the present tree with just that letter written under its
  -- key, whatever others have made of it since.
  pub late_update-stale :
      {A : Type 0} (writable : IsWritable S) (agent id : String) (f : Update A) (seen db : S.Tree)
      (a : Message × A) (t : S.Tree)
      → update_one S agent id f seen ≡ ok (a, t)
      → (u : S.Tree) × (late_update agent id f seen db ≡ ok (a, u))
        × (write_letter S (key a.0.receiver a.0) a.0 db ≡ ok u)
  unfolding late_update update_one
  late_update-stale writable agent id f seen db a t h =
      let (b, u, done, w, same) =
        late_loop f f (λ p q. q ≡ p) (λ m p e. (p, e, refl)) writable id
          (S.scan_prefix (str_append agent "::") seen) seen db a t h in
      (
        u,
        done ∙ ap (λ p. ok (p, u)) same,
        subst (λ p. write_letter S (key p.0.receiver p.0) p.0 db ≡ ok u) same w,
      )
