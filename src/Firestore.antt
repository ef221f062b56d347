-- ===== src/Firestore.antt =====
-- Google Cloud Firestore, which the program only calls: one collection of documents of type `V`,
-- with the operations that the code uses and the documented behaviour that it relies on. A
-- transaction reads and writes one state of the collection, so it is a function on `State`; an
-- equality query is a selection from `docs`, the documents of the collection with their ids.
pub mod Laws
pub mod Memory
pub mod Txn
use mathlib.Core.List.{Memᴰ}
use lakshmana_core.Prelude.{
  Bool, String, Option, none, some, List, [], ◌∷◌, ◌≡◌, All, str_eq, if◌then◌else◌,
}

pub record Collection (V : Type 0) : Type 1 where
  pub State : Type 0
  -- document(id).get()
  pub find : State → String → Option V
  -- set(document(id), …), or an update that leaves the whole document as given
  pub set : State → String → V → State
  -- delete(document(id))
  pub delete : State → String → State
  -- stream() of the whole collection
  pub docs : State → List (String × V)
  pub find-set :
      (s : State) (k j : String) (v : V)
      → find (set s k v) j ≡ (if str_eq k j then some v else find s j)
  pub find-delete :
      (s : State) (k j : String) → find (delete s k) j ≡ (if str_eq k j then none else find s j)
  pub docs_sound : (s : State) → All (λ (d : String × V). find s d.0 ≡ some d.1) (docs s)
  pub docs_complete : (s : State) (k : String) (v : V) → find s k ≡ some v → Memᴰ (k, v) (docs s)
