-- ===== src/Disk/Laws.antt =====
-- What the mirror file holds after a write of it.
use hot_potato.Prelude.{
  String, false, ◌≡◌, refl, ◌∙◌, some, str_eq, inl, inr, Bool-cases, Option-cases, if◌then◌else◌,
}
use hot_potato.Disk.{
  Files, IsLawful, Codec, ReadsBack, and_then, load_from, move_written, persist_json, persist,
  json_done, persist_done,
}

module _ (F : Files) {A : Type 0} (C : Codec F A) (laws : IsLawful F) (reads : ReadsBack C)
    (path : String) (apart : str_eq (F.tmp_of path) path ≡ false) where
  -- The read after the write and the rename.
  read-persist_json :
      (json : F.Bytes) (d : F.Disk)
      → F.read path (persist_json F C path (some json) d)
        ≡ (if json_done F C path (some json) d then some json else F.read path d)
  unfolding persist_json json_done move_written
  read-persist_json json d =
      let tmp = F.tmp_of path in
      let out = F.write tmp json d in
      let kept = laws.read-other tmp path json d apart in
      elim (Bool-cases out.0) [
        | inr lost ↦ rw lost kept
        | inl written ↦ elim (Bool-cases (F.rename tmp path out.1).0) [
          | inl moved ↦
              rw (written, moved)
                (laws.read-renamed tmp path out.1 moved ∙ laws.read-written tmp json d written)
          | inr stuck ↦ rw (written, stuck) (laws.read-kept tmp path path out.1 stuck ∙ kept)
        ]
      ]

  -- After an attempt to write the mirror, the file is read as what was to be written if every step
  -- was done, and otherwise as before.
  pub load_from-persist :
      (a : A) (d : F.Disk)
      → load_from F C path (persist F C (some path) a d)
        ≡ (if persist_done F C path a d then some a else load_from F C path d)
  unfolding load_from persist persist_done
  load_from-persist a d = elim (Option-cases (C.encode a)) [
    | inl nothing ↦ rw nothing refl
    | inr (json, e) ↦
        rw (e, read-persist_json json d)
          (elim (Bool-cases (json_done F C path (some json) d)) [
            | inl t ↦ rw (t, and_then) (reads.decode-encode a json e)
            | inr f ↦ rw f refl
          ])
  ]
