-- ===== src/Sled/Keeps.antt =====
-- What every write of the store on disk keeps: a property of each letter and its key.
use hot_potato.Prelude.{
  ◌≡◌, sym, ap, eq_iff, ◌∙◌, subst, inl, inr, String, List, [], ◌∷◌, All, str_eq, str_le,
  Bool-cases,
}
use hot_potato.Error.{ok, Result-cases, ok_inj, err≢ok}
use hot_potato.Message.{Message}
use hot_potato.Sled.Letter.{Update}
use hot_potato.Sled.Tree.{Sled, key, read_letter, write_letter, update_loop}
use hot_potato.Sled.Laws.{IsReliable, put_entry, drop_entry, as_items}

module _ {V : Type 0} (Q : String × V → Type 0) where
  pub put_entry-All :
      (k : String) (v : V) (es : List (String × V)) → Q (k, v) → All Q es → All Q (put_entry k v es)
  unfolding put_entry
  put_entry-All k v [] q h = (q, tt)
  put_entry-All k v ((j, w) ∷ rest) q h = elim (Bool-cases (str_eq j k)) [
    | inl t ↦ rw t (q, h.1)
    | inr f ↦ rw f (elim (Bool-cases (str_le j k)) [
      | inl t ↦ rw t (h.0, put_entry-All k v rest q h.1)
      | inr e ↦ rw e (q, h)
    ])
  ]

  pub drop_entry-All : (k : String) (es : List (String × V)) → All Q es → All Q (drop_entry k es)
  unfolding drop_entry
  drop_entry-All k [] h = tt
  drop_entry-All k ((j, w) ∷ rest) h = elim (Bool-cases (str_eq j k)) [
    | inl t ↦ rw t h.1
    | inr f ↦ rw f (h.0, drop_entry-All k rest h.1)
  ]

-- The update keeps `P` of a letter with the id under a key of `R`, also where the letter is written
-- under its own key.
abbrev pub Keeps :
    {A : Type 0} → (String → Type 0) → String → (String → Message → Type 0) → Update A → Type 0
Keeps {A} R id P f =
    (k : String) (m : Message) (out : Message × A)
    → R k
    → m.id ≡ id
    → P k m
    → f m ≡ ok out
    → P (key out.0.receiver out.0) out.0

module _ (S : Sled) (L : IsReliable S) (P : String → Message → Type 0) where
  -- The letter of an entry, if it has one, satisfies `P` with the key.
  abbrev pub IsGood : String × S.Value → Type 0
  IsGood e = (m : Message) → S.from_slice e.1 ≡ ok m → P e.0 m

  abbrev pub HoldsOn : S.Tree → Type 0
  HoldsOn t = All IsGood (L.entries t)

  pub write-HoldsOn :
      (k : String) (m : Message) (t : S.Tree) {t' : S.Tree}
      → HoldsOn t
      → P k m
      → write_letter S k m t ≡ ok t'
      → HoldsOn t'
  write-HoldsOn k m t {t'} h p e = elim (Result-cases (S.to_vec m)) [
    | inr (x, bad) ↦ absurd (err≢ok (rw bad at e))
    | inl (v, got) ↦ elim (Result-cases (S.insert k v t)) [
      | inr (x, bad) ↦ absurd (err≢ok (rw (got, bad) at e))
      | inl (db, done) ↦
          let same : db ≡ t' = ok_inj (rw (got, done) at e) in
          subst HoldsOn same (
            rw (L.insert_lem k v t db done) (
              put_entry-All IsGood k v (L.entries t)
                (λ l read. subst (P k) (ok_inj (sym (L.encode_lem m v got) ∙ read)) p) h))
    ]
  ]

  read_item :
      (e : String × S.Value) {km : String × Message}
      → IsGood e
      → read_letter S (ok e) ≡ ok km
      → P km.0 km.1
  read_item e {km} g h = elim (Result-cases (S.from_slice e.1)) [
    | inr (x, bad) ↦ absurd (err≢ok (rw bad at h))
    | inl (m, got) ↦
        let same : (e.0, m) ≡ km = ok_inj (rw got at h) in subst (λ x. P x.0 x.1) same (g m got)
  ]

  read_key :
      (e : String × S.Value) {km : String × Message} → read_letter S (ok e) ≡ ok km → e.0 ≡ km.0
  read_key e {km} h = elim (Result-cases (S.from_slice e.1)) [
    | inr (x, bad) ↦ absurd (err≢ok (rw bad at h))
    | inl (m, got) ↦ ap (λ x. x.0) (ok_inj (rw got at h))
  ]

  pub update_loop-HoldsOn :
      {A : Type 0} (R : String → Type 0) (f : Update A) (id : String) (es : List (String × S.Value))
      (t : S.Tree) {out : (Message × A) × S.Tree}
      → Keeps R id P f
      → All (λ e. R e.0) es
      → All IsGood es
      → HoldsOn t
      → update_loop S f id (as_items es) t ≡ ok out
      → HoldsOn out.1
  unfolding update_loop
  update_loop-HoldsOn R f id [] t keeps r g h e = absurd (err≢ok e)
  update_loop-HoldsOn R f id (x ∷ es) t {out} keeps r g h e =
      elim (Result-cases (read_letter S (ok x))) [
        | inr (z, bad) ↦ absurd (err≢ok (rw bad at e))
        | inl ((k, m), got) ↦ elim (Bool-cases (str_eq m.id id)) [
          | inr other ↦ update_loop-HoldsOn R f id es t keeps r.1 g.1 h (rw (got, other) at e)
          | inl same ↦ elim (Result-cases (f m)) [
            | inr (z, bad) ↦ absurd (err≢ok (rw (got, same, bad) at e))
            | inl (o, done) ↦ elim (Result-cases (write_letter S (key o.0.receiver o.0) o.0 t)) [
              | inr (z, bad) ↦ absurd (err≢ok (rw (got, same, done, bad) at e))
              | inl (t', wrote) ↦
                  let result : (o, t') ≡ out = ok_inj (rw (got, same, done, wrote) at e) in
                  subst (λ r. HoldsOn r.1) result
                    (write-HoldsOn (key o.0.receiver o.0) o.0 t h
                      (keeps k m o (subst R (read_key x got) r.0) ((eq_iff m.id id).0 same)
                        (read_item x g.0 got) done)
                      wrote)
            ]
          ]
        ]
      ]
