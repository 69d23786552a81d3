-- ===== src/Json.antt =====
-- serde_json's `Value`, `Number` and `Map`: a map is a list of fields in the order of its keys,
-- as `Map` is a BTreeMap when the crate's feature preserve_order is off.
pub mod Map
use sodp.Base.{ℕ, String, Bool, true, false, Option, none, some, ◌≡◌, str_eq, if◌then◌else◌}
use sodp.Base.Text.{key_lt, String-discrete}
use native.Mathlib.Decide.{ℕ_discrete}

-- `neg_int n` is -(n + 1). A float is known by its bits, with -0.0 as 0.0; `Number` has no NaN.
pub data Number : Type 0 where
  pos_int : ℕ → Number
  neg_int : ℕ → Number
  float : ℕ → Number

mutual
  pub data Value : Type 0 where
    null : Value
    bool : Bool → Value
    num : Number → Value
    str : String → Value
    arr : Items → Value
    obj : Fields → Value

  pub data Fields : Type 0 where
    end : Fields
    field : String → Value → Fields → Fields

  pub data Items : Type 0 where
    nil : Items
    cons : Value → Items → Items

unfoldable pub Value-discrete : Discrete Value
unfolding ℕ_discrete String-discrete
Value-discrete = hlevel (ℕ_discrete, String-discrete)

abbrev pub is_object : Value → Bool
is_object (obj m) = true
is_object _ = false

-- `Map::get`, `Map::insert`, `Map::remove`
unfoldable pub get : Fields → String → Option Value
get end k = none
get (field j v m) k = if str_eq j k then some v else get m k

unfoldable pub insert : Fields → String → Value → Fields
insert end k v = field k v end
insert (field j w m) k v =
    if str_eq j k
    then field k v m
    else if key_lt k j
    then field k v (field j w m)
    else field j w (insert m k v)

unfoldable pub remove : Fields → String → Fields
remove end k = end
remove (field j w m) k = if str_eq j k then m else field j w (remove m k)

abbrev pub contains_key : Fields → String → Bool
contains_key m k = elim (get m k) [ none ↦ false | some v ↦ true ]

-- `v.get(k)` of a value that may be no object
abbrev pub get_field : Value → String → Option Value
get_field (obj m) k = get m k
get_field _ k = none

abbrev pub as_str : Option Value → Option String
as_str (some (str s)) = some s
as_str _ = none

abbrev pub unwrap_or_null : Option Value → Value
unwrap_or_null none = null
unwrap_or_null (some v) = v

-- The keys of a map rise strictly.
abbrev pub Above : String → Fields → Type 0
Above k end = Unit
Above k (field j v m) = key_lt k j ≡ true

abbrev pub IsSorted : Fields → Type 0
IsSorted end = Unit
IsSorted (field k v m) = Above k m × IsSorted m

-- Every map inside is sorted, as serde_json builds them.
unfoldable mutual
  pub WellFormed : Value → Type 0
  WellFormed null = Unit
  WellFormed (bool b) = Unit
  WellFormed (num n) = Unit
  WellFormed (str s) = Unit
  WellFormed (arr xs) = WellFormedItems xs
  WellFormed (obj m) = IsSorted m × WellFormedFields m

  pub WellFormedItems : Items → Type 0
  WellFormedItems nil = Unit
  WellFormedItems (cons x xs) = WellFormed x × WellFormedItems xs

  pub WellFormedFields : Fields → Type 0
  WellFormedFields end = Unit
  WellFormedFields (field k v m) = WellFormed v × WellFormedFields m
