-- ===== src/Sled/Laws.antt =====
-- store/sled_store.rs: what the store relies on in the database and in the encoding.
use text.Mathlib.Text.{starts_with}
use hot_potato.Prelude.{◌≡◌, String, List, [], ◌∷◌, map, filter, str_eq, str_le, if◌then◌else◌}
use hot_potato.Error.{Result, ok}
use hot_potato.Message.{Message}
use hot_potato.Sled.Tree.{Sled}

module _ {V : Type 0} where
  -- An ordered map as the list of its entries: a new value replaces the one at its key.
  unfoldable pub put_entry : String → V → List (String × V) → List (String × V)
  put_entry k v [] = (k, v) ∷ []
  put_entry k v ((j, w) ∷ rest) =
      let later = put_entry k v rest in
      if str_eq j k
      then (k, v) ∷ rest
      else if str_le j k
      then (j, w) ∷ later
      else (k, v) ∷ (j, w) ∷ rest

  unfoldable pub drop_entry : String → List (String × V) → List (String × V)
  drop_entry k [] = []
  drop_entry k ((j, w) ∷ rest) =
      let later = drop_entry k rest in if str_eq j k then rest else (j, w) ∷ later

  abbrev pub as_items : List (String × V) → List (Result String (String × V))
  as_items es = map ok es

-- The documented behaviour of the database, where its calls succeed: an ordered map on disk, whose
-- scans give the entries; and of the encoding: a letter is read back, and no letter is empty.
pub record IsReliable (S : Sled) : Type 0 where
  pub entries : S.Tree → List (String × S.Value)
  pub iter_lem : (t : S.Tree) → S.iter t ≡ as_items (entries t)
  pub scan_lem :
      (p : String) (t : S.Tree)
      → S.scan_prefix p t ≡ as_items (filter (λ e. starts_with e.0 p) (entries t))
  pub insert_lem :
      (k : String) (v : S.Value) (t t' : S.Tree)
      → S.insert k v t ≡ ok t'
      → entries t' ≡ put_entry k v (entries t)
  pub remove_lem :
      (k : String) (t t' : S.Tree) → S.remove k t ≡ ok t' → entries t' ≡ drop_entry k (entries t)
  pub encode_lem : (m : Message) (v : S.Value) → S.to_vec m ≡ ok v → S.from_slice v ≡ ok m
  pub empty_lem : (m : Message) → S.from_slice S.no_bytes ≡ ok m → ⊥
