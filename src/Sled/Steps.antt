-- ===== src/Sled/Steps.antt =====
-- Single operations of the store on disk keep what the updates keep of every letter.
use Prim.Native.String.{◌++◌ as str_append}
use text.Mathlib.Text.{starts_with}
use hot_potato.Prelude.{
  ℕ, ◌+◌, leb, ◌≡◌, subst, inl, inr, String, true, List, [], ◌∷◌, filter, All, All-filter,
  All-filter_own, length, Bool-cases, arith, some,
}
use hot_potato.Error.{ok, Result-cases, ok_inj, err≢ok}
use hot_potato.Message.{Message, Time, queued, delivered, status_eq}
use hot_potato.Sled.Letter.{Update, claim_update, revive_update, is_candidate}
use hot_potato.Sled.Tree.{
  Sled, SledStore, key, marker, write_letter, update_one, map_err, sled_err, collect,
}
use hot_potato.Sled.Defs
use hot_potato.Sled.Defs.{by_update, poll_loop, revive_loop, remove_loop, letter_keys, find_loop}
use hot_potato.Sled.Laws.{IsReliable, as_items}
use hot_potato.Sled.Keeps.{
  put_entry-All, drop_entry-All, Keeps, IsGood, HoldsOn, write-HoldsOn, update_loop-HoldsOn,
}

-- The key is one that a scan for the agent finds.
abbrev pub InBox : String → String → Type 0
InBox agent k = starts_with k (str_append agent "::") ≡ true

module _ (S : Sled) (L : IsReliable S) (P : String → Message → Type 0) where
  pub update_one-HoldsOn :
      {A : Type 0} (agent id : String) (f : Update A) (t : S.Tree) {out : (Message × A) × S.Tree}
      → Keeps (InBox agent) id P f
      → HoldsOn S L P t
      → update_one S agent id f t ≡ ok out
      → HoldsOn S L P out.1
  unfolding update_one
  update_one-HoldsOn agent id f t keeps h e =
      update_loop-HoldsOn S L P (InBox agent) f id
        (filter (λ x. starts_with x.0 (str_append agent "::")) (L.entries t)) t keeps
        (All-filter_own (λ x. starts_with x.0 (str_append agent "::")) (L.entries t))
        (All-filter (IsGood S L P) (λ x. starts_with x.0 (str_append agent "::")) (L.entries t) h) h
        (rw (L.scan_lem (str_append agent "::") t) at e)

  pub by_update-HoldsOn :
      (agent id : String) (f : Update (Unit {0})) (s : SledStore S)
      → Keeps (InBox agent) id P f
      → HoldsOn S L P s.db
      → HoldsOn S L P (by_update S agent id f s).1.db
  by_update-HoldsOn agent id f s keeps h = elim (Result-cases (update_one S agent id f s.db)) [
    | inr (x, bad) ↦ rw bad h
    | inl (out, got) ↦ rw got (update_one-HoldsOn agent id f s.db keeps h got)
  ]

  pub claim-HoldsOn :
      (agent id : String) (now : Time) (s : SledStore S)
      → Keeps (InBox agent) id P (claim_update now)
      → HoldsOn S L P s.db
      → HoldsOn S L P (Defs.mark_pushing S agent id now s).1.db
  unfolding Defs.mark_pushing
  claim-HoldsOn agent id now s keeps h =
      elim (Result-cases (update_one S agent id (claim_update now) s.db)) [
        | inr (x, bad) ↦ rw bad h
        | inl (out, got) ↦ rw got (update_one-HoldsOn agent id (claim_update now) s.db keeps h got)
      ]

  pub push-HoldsOn :
      (msg : Message) (s : SledStore S)
      → P (key msg.receiver msg) msg
      → HoldsOn S L P s.db
      → HoldsOn S L P (Defs.push S msg s).1.db
  unfolding Defs.push
  push-HoldsOn msg s p h =
      elim (Bool-cases
        (leb s.capacity (length (S.scan_prefix (str_append msg.receiver "::") s.db)))) [
          | inl full ↦ rw full h
          | inr space ↦ elim (Result-cases (write_letter S (key msg.receiver msg) msg s.db)) [
            | inr (x, bad) ↦ rw (space, bad) h
            | inl (db, got) ↦
                rw (space, got) (write-HoldsOn S L P (key msg.receiver msg) msg s.db h p got)
          ]
        ]

  pub revive_loop-HoldsOn :
      (agent : String) (cs : List Message) (s : SledStore S)
      → ((id : String) → Keeps (InBox agent) id P revive_update)
      → HoldsOn S L P s.db
      → HoldsOn S L P (revive_loop S agent cs s).1.db
  unfolding revive_loop
  revive_loop-HoldsOn agent [] s keeps h = h
  revive_loop-HoldsOn agent (c ∷ cs) s keeps h =
      let next =
        revive_loop-HoldsOn agent cs (by_update S agent c.id revive_update s).1 keeps
          (by_update-HoldsOn agent c.id revive_update s (keeps c.id) h) in
      ground (arith, next)

  pub revive-HoldsOn :
      (agent : String) (now : Time) (s : SledStore S)
      → ((id : String) → Keeps (InBox agent) id P revive_update)
      → HoldsOn S L P s.db
      → HoldsOn S L P (Defs.revive_auth_dead S agent now s).1.db
  unfolding Defs.revive_auth_dead
  revive-HoldsOn agent now s keeps h = elim (Result-cases (collect S (is_candidate agent) s.db)) [
    | inr (x, bad) ↦ rw bad h
    | inl (cs, got) ↦ rw got (revive_loop-HoldsOn agent cs s keeps h)
  ]

  -- A poll of the agent keeps `P` of a letter that it takes.
  abbrev pub HandsOver : String → Time → Type 0
  HandsOver agent now =
      (k : String) (m : Message)
      → InBox agent k
      → status_eq m.status queued ≡ true
      → P k m
      → P k (record m { status = delivered; delivered_at = some now })

  pub poll_loop-HoldsOn :
      (agent : String) (limit n : ℕ) (now : Time) (es : List (String × S.Value)) (t : S.Tree)
      → HandsOver agent now
      → All (λ e. InBox agent e.0) es
      → All (IsGood S L P) es
      → HoldsOn S L P t
      → HoldsOn S L P (poll_loop S limit n now (as_items es) t).1
  unfolding poll_loop
  poll_loop-HoldsOn agent limit n now [] t kept r g h = h
  poll_loop-HoldsOn agent limit n now (x ∷ es) t kept r g h =
      elim (Result-cases (S.from_slice x.1)) [
        | inr (z, bad) ↦ rw bad h
        | inl (m, got) ↦ elim (Bool-cases (status_eq m.status queued)) [
          | inr other ↦ rw (got, other) (poll_loop-HoldsOn agent limit n now es t kept r.1 g.1 h)
          | inl fit ↦
              let taken = record m { status = delivered; delivered_at = some now } in
              elim (Result-cases (write_letter S x.0 taken t)) [
                | inr (z, bad) ↦ rw (got, fit, bad) h
                | inl (t', wrote) ↦
                    let good' =
                      write-HoldsOn S L P x.0 taken t h (kept x.0 m r.0 fit (g.0 m got)) wrote in
                    rw (got, fit, wrote)
                      (elim (Bool-cases (leb limit (n + 1))) [
                        | inl full ↦ rw full good'
                        | inr more ↦
                            rw more
                              (poll_loop-HoldsOn agent limit (n + 1) now es t' kept r.1 g.1 good')
                      ])
              ]
        ]
      ]

  pub poll-HoldsOn :
      (agent : String) (limit : ℕ) (now : Time) (s : SledStore S)
      → HandsOver agent now
      → HoldsOn S L P s.db
      → HoldsOn S L P (Defs.poll S agent limit now s).1.db
  unfolding Defs.poll
  poll-HoldsOn agent limit now s kept h = rw (L.scan_lem (str_append agent "::") s.db) (
      poll_loop-HoldsOn agent limit 0 now
        (filter (λ x. starts_with x.0 (str_append agent "::")) (L.entries s.db)) s.db kept
        (All-filter_own (λ x. starts_with x.0 (str_append agent "::")) (L.entries s.db))
        (All-filter (IsGood S L P) (λ x. starts_with x.0 (str_append agent "::")) (L.entries s.db)
          h)
        h)

  pub remove-HoldsOn :
      (k : String) (t : S.Tree) {t' : S.Tree}
      → HoldsOn S L P t
      → map_err sled_err (S.remove k t) ≡ ok t'
      → HoldsOn S L P t'
  remove-HoldsOn k t {t'} h e = elim (Result-cases (S.remove k t)) [
    | inr (x, bad) ↦ absurd (err≢ok (rw bad at e))
    | inl (db, done) ↦
        subst (HoldsOn S L P) (ok_inj (rw done at e))
          (rw (L.remove_lem k t db done) (drop_entry-All (IsGood S L P) k (L.entries t) h))
  ]

  pub remove_loop-HoldsOn :
      (n : ℕ) (ks : List String) (t : S.Tree)
      → HoldsOn S L P t
      → HoldsOn S L P (remove_loop S n ks t).1
  unfolding remove_loop
  remove_loop-HoldsOn n [] t h = h
  remove_loop-HoldsOn n (k ∷ ks) t h = elim (Result-cases (map_err sled_err (S.remove k t))) [
    | inr (x, bad) ↦ rw bad h
    | inl (t', done) ↦ rw done (remove_loop-HoldsOn (n + 1) ks t' (remove-HoldsOn k t h done))
  ]

  pub delete_all-HoldsOn :
      (s : SledStore S) → HoldsOn S L P s.db → HoldsOn S L P (Defs.delete_all S s).1.db
  unfolding Defs.delete_all
  delete_all-HoldsOn s h = elim (Result-cases (letter_keys S (S.iter s.db))) [
    | inr (x, bad) ↦ rw bad h
    | inl (ks, got) ↦ rw got (remove_loop-HoldsOn 0 ks s.db h)
  ]

  pub delete_one-HoldsOn :
      (id : String) (s : SledStore S)
      → HoldsOn S L P s.db
      → HoldsOn S L P (Defs.delete_one S id s).1.db
  unfolding Defs.delete_one
  delete_one-HoldsOn id s h = elim (Result-cases (find_loop S id (S.iter s.db))) [
    | inr (x, bad) ↦ rw bad h
    | inl (km, got) ↦ elim (Result-cases (map_err sled_err (S.remove km.0 s.db))) [
      | inr (x, bad) ↦ rw (got, bad) h
      | inl (t', done) ↦ rw (got, done) (remove-HoldsOn km.0 s.db h done)
    ]
  ]

  pub register-HoldsOn :
      (agent : String) (s : SledStore S)
      → HoldsOn S L P s.db
      → HoldsOn S L P (Defs.register S agent s).1.db
  unfolding Defs.register
  register-HoldsOn agent s h =
      elim (Result-cases (S.insert (str_append marker agent) S.no_bytes s.db)) [
        | inr (x, bad) ↦ rw bad h
        | inl (t', done) ↦
            rw (done, L.insert_lem (str_append marker agent) S.no_bytes s.db t' done)
              (put_entry-All (IsGood S L P) (str_append marker agent) S.no_bytes (L.entries s.db)
                (λ m read. absurd (L.empty_lem m read)) h)
      ]

  pub unregister-HoldsOn :
      (agent : String) (s : SledStore S)
      → HoldsOn S L P s.db
      → HoldsOn S L P (Defs.unregister S agent s).1.db
  unfolding Defs.unregister
  unregister-HoldsOn agent s h =
      elim (Result-cases (map_err sled_err (S.remove (str_append marker agent) s.db))) [
        | inr (x, bad) ↦ rw bad h
        | inl (t', done) ↦ rw done (remove-HoldsOn (str_append marker agent) s.db h done)
      ]
