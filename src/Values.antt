-- ===== src/Values.antt =====
-- The values that the program reads by key: of JSON objects, of Firestore documents, of the
-- configuration, and of the counters of gatekeeper/runs/model.py. A time is a count of microseconds.
use lakshmana_core.Prelude.{
  ℕ, Bool, String, str_eq, Option, none, some, List, [], ◌∷◌, if◌then◌else◌,
}
use lakshmana_core.Decisions.{Score}

-- A double: a finite one that is not negative, −(n + 1) quanta, the infinities, or NaN, which
-- `json.loads` makes of the literal `NaN`.
pub data Double : Type 0 where
  finite : Score → Double
  below : ℕ → Double
  infinity minus_infinity not_a_number : Double

-- A value, with its Python type; `other` stands for those that no code here looks into, with their truth.
mutual
  pub data Value : Type 0 where
    null : Value
    boolean : Bool → Value
    integer : ℕ → Value
    -- −(n + 1)
    negative : ℕ → Value
    real : Double → Value
    text : String → Value
    instant : ℕ → Value
    dict : Members → Value
    other : Bool → Value

  pub data Members : Type 0 where
    done : Members
    member : String → Value → Members → Members

-- `data.get(key)`, with `none` where the key is missing.
abbrev pub get : Members → String → Option Value
get done key = none
get (member k v rest) key = let found = get rest key in if str_eq k key then some v else found

abbrev pub keys : Members → List String
keys done = []
keys (member k v rest) = k ∷ keys rest
