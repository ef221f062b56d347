-- ===== src/Wire.antt =====
-- The forms in which data leaves and enters the program: JSON objects (gatekeeper/contracts) and
-- Firestore documents. `json.loads`, `base64` and the client libraries make the values; the program
-- reads them by key.
pub mod Payload
pub mod RoundTrip
pub mod Strict
pub mod Push
pub mod Documents
pub mod Stored
use mathlib.Core.Option.{some-injective}
use lakshmana_core.Prelude.{
  ◌≡◌, refl, sym, ap, ◌∙◌, inl, inr, eq_iff, Bool-cases, ℕ, Bool, true, false, not, ◌||◌, ◌&&◌,
  String, str_eq, Option, none, some, List, [], ◌∷◌, any, all, if◌then◌else◌,
}
use lakshmana_core.Decisions.{Score}
use lakshmana_core.Runs.{Time}
pub use lakshmana_core.Values.{
  Value, null, boolean, integer, negative, real, text, instant, dict, other, Members, done, member,
  get, keys,
}

-- `Enum(raw)`: the member with this value, or a `ValueError`.
abbrev pub by_value : {A : Type 0} → (A → String) → List A → String → Option A
by_value value [] raw = none
by_value value (a ∷ rest) raw =
    let found = by_value value rest raw in if str_eq (value a) raw then some a else found

-- What a malformed message is refused for.
pub data SchemaError : Type 0 where
  not_an_object no_version version_not_integer unsupported_version unknown_field missing_field
        not_text not_uuid not_uuid4 not_canonical not_a_member bad_timestamp bad_envelope no_data
        bad_base64 not_json :
      SchemaError

-- The result of a function that may raise a `SchemaError`.
pub data Parsed (A : Type 0) : Type 0 where
  ok : A → Parsed A
  err : SchemaError → Parsed A

infixl 5 ◌>>=◌ ◌>>◌
abbrev pub ◌>>=◌ : {A B : Type 0} → Parsed A → (A → Parsed B) → Parsed B
ok a >>= f = f a
err e >>= f = err e

abbrev pub ◌>>◌ : {B : Type 0} → Parsed (Unit {0}) → Parsed B → Parsed B
m >> k = m >>= λ _. k

abbrev pub guard : Bool → SchemaError → Parsed (Unit {0})
guard true e = ok tt
guard false e = err e

abbrev pub require : {A : Type 0} → Option A → SchemaError → Parsed A
require none e = err e
require (some a) e = ok a

-- Inversion of a function that has returned.
pub >>=-eq-ok :
    {A B : Type 0} {m : Parsed A} {f : A → Parsed B} {b : B}
    → (m >>= f) ≡ ok b
    → (a : A) × (m ≡ ok a) × (f a ≡ ok b)
>>=-eq-ok {m = ok a} h = (a, refl, h)
>>=-eq-ok {m = err e} h = cc

pub require-eq-ok :
    {A : Type 0} {o : Option A} (e : SchemaError) {a : A} → require o e ≡ ok a → o ≡ some a
require-eq-ok {o = none} e h = cc
require-eq-ok {o = some x} e h = cc

pub guard-eq-ok : {b : Bool} (e : SchemaError) {u : Unit {0}} → guard b e ≡ ok u → b ≡ true
guard-eq-ok {b = true} e h = refl
guard-eq-ok {b = false} e h = cc

pub by_value-eq-some :
    {A : Type 0} (value : A → String) (members : List A) (raw : String) {a : A}
    → by_value value members raw ≡ some a
    → value a ≡ raw
by_value-eq-some value [] raw h = cc
by_value-eq-some value (m ∷ rest) raw {a} h = elim (Bool-cases (str_eq (value m) raw)) [
  | inl e ↦
      let same : some m ≡ some a = rw e at h in
      ap value (sym (some-injective m a same)) ∙ (eq_iff (value m) raw).0 e
  | inr e ↦ by_value-eq-some value rest raw (rw e at h)
]
