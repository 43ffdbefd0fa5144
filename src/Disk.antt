-- ===== src/Disk.antt =====
-- deliver.rs and handshake.rs: the JSON files in which the registry and the learned peers mirror
-- themselves. The file system, the paths and the JSON library are parameters.
pub mod Laws
use hot_potato.Prelude.{
  ℕ, String, Bool, true, false, ◌&&◌, Option, none, some, List, ◌≡◌, str_eq, if◌then◌else◌,
}

-- What is used of `std::fs` and `std::path`: a read gives the bytes or nothing, a write or a rename
-- says whether it was done, `Bytes` is `Vec<u8>`, and `tmp_of` is `with_extension("json.tmp")`.
pub record Files : Type 1 where
  pub Disk : Type 0
  pub Bytes : Type 0
  pub read : String → Disk → Option Bytes
  pub write : String → Bytes → Disk → Bool × Disk
  pub rename : String → String → Disk → Bool × Disk
  pub tmp_of : String → String

-- A write that is done leaves the bytes in that file, and touches no other file even if it fails
-- halfway. A rename moves the whole file or does nothing.
pub record IsLawful (F : Files) : Type 0 where
  pub read-written :
      (p : String) (bytes : F.Bytes) (d : F.Disk)
      → (F.write p bytes d).0 ≡ true
      → F.read p (F.write p bytes d).1 ≡ some bytes
  pub read-other :
      (p q : String) (bytes : F.Bytes) (d : F.Disk)
      → str_eq p q ≡ false
      → F.read q (F.write p bytes d).1 ≡ F.read q d
  pub read-renamed :
      (p q : String) (d : F.Disk)
      → (F.rename p q d).0 ≡ true
      → F.read q (F.rename p q d).1 ≡ F.read p d
  pub read-kept :
      (p q r : String) (d : F.Disk)
      → (F.rename p q d).0 ≡ false
      → F.read r (F.rename p q d).1 ≡ F.read r d

-- `serde_json::to_vec_pretty` and `from_slice` on one type.
pub record Codec (F : Files) (A : Type 0) : Type 0 where
  pub encode : A → Option F.Bytes
  pub decode : F.Bytes → Option A

-- What was written as JSON is read as it was.
pub record ReadsBack {F : Files} {A : Type 0} (C : Codec F A) : Type 0 where
  pub decode-encode : (a : A) (bytes : F.Bytes) → C.encode a ≡ some bytes → C.decode bytes ≡ some a

-- `.ok()?` before one more step.
pub and_then : {A B : Type 0} → Option A → (A → Option B) → Option B
and_then none f = none
and_then (some a) f = f a

module _ (F : Files) {A : Type 0} (C : Codec F A) where
  -- `load_from`.
  unfoldable pub load_from : String → F.Disk → Option A
  unfolding and_then
  load_from path d = and_then (F.read path d) C.decode

  -- `if std::fs::write(&tmp, json).is_ok() { let _ = std::fs::rename(&tmp, path); }`.
  unfoldable pub move_written : String → Bool × F.Disk → F.Disk
  move_written path (true, d) = (F.rename (F.tmp_of path) path d).1
  move_written path (false, d) = d

  unfoldable pub persist_json : String → Option F.Bytes → F.Disk → F.Disk
  unfolding move_written
  persist_json path none d = d
  persist_json path (some json) d = move_written path (F.write (F.tmp_of path) json d)

  -- `persist`, from its early return on.
  unfoldable pub persist : Option String → A → F.Disk → F.Disk
  unfolding persist_json
  persist none a d = d
  persist (some path) a d = persist_json path (C.encode a) d

  -- Whether every step of `persist` is done.
  unfoldable pub json_done : String → Option F.Bytes → F.Disk → Bool
  json_done path none d = false
  json_done path (some json) d =
      let out = F.write (F.tmp_of path) json d in out.0 && (F.rename (F.tmp_of path) path out.1).0

  unfoldable pub persist_done : String → A → F.Disk → Bool
  unfolding json_done
  persist_done path a d = json_done path (C.encode a) d
