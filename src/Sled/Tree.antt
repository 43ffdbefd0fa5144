-- ===== src/Sled/Tree.antt =====
-- store/sled_store.rs: the tree that the store keeps, its keys, and the scans over it.
use Prim.Native.String.{◌++◌ as str_append, slice}
use hot_potato.Prelude.{
  ℕ, zero, suc, ◌+◌, ◌/◌, ◌%◌, String, Bool, List, [], ◌∷◌, str_eq, if◌then◌else◌,
}
use hot_potato.Error.{BusError, Result, BusResult, ok, err, not_found, storage, ◌>>=◌}
use hot_potato.Message.{Message}
use hot_potato.Store.{fifo}
use hot_potato.Sled.Letter.{Update}

-- The database and the encoding of letters, which the store calls. A key is a text: the bytes are
-- its UTF-8. Every call can fail, with a printed reason.
pub record Sled : Type 1 where
  pub Tree : Type 0
  pub Value : Type 0
  pub iter : Tree → List (Result String (String × Value))
  pub scan_prefix : String → Tree → List (Result String (String × Value))
  pub insert : String → Value → Tree → Result String Tree
  pub remove : String → Tree → Result String Tree
  pub to_vec : Message → Result String Value
  pub from_slice : Value → Result String Message
  pub no_bytes : Value

abbrev pub sled_err : String → BusError
sled_err e = storage (str_append "sled: " e)

abbrev pub serde_err : String → BusError
serde_err e = storage (str_append "serde: " e)

-- `map_err(f)?`.
abbrev pub map_err : {A : Type 0} → (String → BusError) → Result String A → BusResult A
map_err f (ok a) = ok a
map_err f (err e) = err (f e)

-- `n` digits of a number.
unfoldable pub padded : ℕ → ℕ → String
padded zero n = ""
padded (suc w) n = str_append (padded w (n / 10)) (slice "0123456789" (n % 10) (n % 10 + 1))

-- `SledStore::key`. The time has twenty digits, in milliseconds.
unfoldable pub key : String → Message → String
key receiver m =
    str_append receiver
      (str_append "::" (str_append (padded 20 (m.created_at / 1000000)) (str_append "::" m.id)))

abbrev pub marker : String
marker = "__agent__::"

-- Of a computation that has failed the store keeps what it had.
abbrev pub or_keep : {A B : Type 0} → A → BusResult (B × A) → BusResult B × A
or_keep s (ok (b, s')) = (ok b, s')
or_keep s (err e) = (err e, s)

module _ (S : Sled) where
  pub record SledStore : Type 0 where
    pub db : S.Tree
    pub capacity : ℕ

  -- `from_slice(&v)?` on an item of a scan.
  abbrev pub read_letter : Result String (String × S.Value) → BusResult (String × Message)
  read_letter item =
      map_err sled_err item >>= λ kv. map_err serde_err (S.from_slice kv.1) >>= λ m. ok (kv.0, m)

  -- `insert(key, to_vec(&m)?)?`.
  abbrev pub write_letter : String → Message → S.Tree → BusResult S.Tree
  write_letter k m db = map_err serde_err (S.to_vec m) >>= λ v. map_err sled_err (S.insert k v db)

  -- The loop of `update_one`, over the items of the scan.
  unfoldable pub update_loop :
      {A : Type 0}
      → Update A
      → String
      → List (Result String (String × S.Value))
      → S.Tree
      → BusResult ((Message × A) × S.Tree)
  update_loop f id [] db = err (not_found id)
  update_loop f id (item ∷ items) db =
      let later = update_loop f id items db in
      read_letter item >>= λ km.
      if str_eq km.1.id id
      then (f km.1 >>= λ out.
          write_letter (key out.0.receiver out.0) out.0 db >>= λ db'. ok (out, db'))
      else later

  -- `update_one`.
  unfoldable pub update_one :
      {A : Type 0} → String → String → Update A → S.Tree → BusResult ((Message × A) × S.Tree)
  update_one agent id f db = update_loop f id (S.scan_prefix (str_append agent "::") db) db

  -- `collect`, before the sort: a value that is no letter is skipped.
  unfoldable pub collect_loop :
      (Message → Bool) → List (Result String (String × S.Value)) → BusResult (List Message)
  collect_loop pred [] = ok []
  collect_loop pred (item ∷ items) =
      let later = collect_loop pred items in
      map_err sled_err item >>= λ kv. elim (S.from_slice kv.1) [
        | err e ↦ later
        | ok m ↦ if pred m then (later >>= λ ms. ok (m ∷ ms)) else later
      ]

  unfoldable pub collect : (Message → Bool) → S.Tree → BusResult (List Message)
  collect pred db = collect_loop pred (S.iter db) >>= λ ms. ok (fifo ms)
