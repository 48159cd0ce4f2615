-- ===== src/Base/Json.antt =====
-- The values that `json.loads` returns, and Python's operations on dictionaries of them. Numbers with
-- a fraction do not occur in the suite's files, but for deadlines, which are whole ticks here.
use Prim.Native.String.{String}
use mathlib.Core.Path.{◌≡◌, refl}
use mathlib.Core.Bool.{Bool, true, false, not}
use mathlib.Core.Option.{Option, none, some}
use native.Mathlib.Omega.{arith}
use text.Mathlib.Text.{◌==◌}
use text.Mathlib.TextEquality.{eq_iff}
use l4d2_iptable_suite.Base.Tests.{if◌then◌else◌}
use l4d2_iptable_suite.Base.Int.{ℤ, is_nonzero}
use l4d2_iptable_suite.Base.Result.{Result, ok, err, key_error, type_error}

mutual
  pub data Json : Type 0 where
    null : Json
    bool : Bool → Json
    int : ℤ → Json
    str : String → Json
    arr : Items → Json
    obj : Fields → Json

  pub data Items : Type 0 where
    nil : Items
    cons : Json → Items → Items

  -- a dictionary, in insertion order
  pub data Fields : Type 0 where
    end : Fields
    field : String → Json → Fields → Fields

-- `d.get(k)`, with `none` for a missing key.
unfoldable pub get : Fields → String → Option Json
get end k = none
get (field j v fs) k = if j == k then some v else get fs k

-- `d[k] = v` keeps the place of a key that is there.
unfoldable pub put : Fields → String → Json → Fields
put end k v = field k v end
put (field j w fs) k v = if j == k then field k v fs else field j w (put fs k v)

-- `d.pop(k, None)`, as the dictionary that is left.
unfoldable pub remove : Fields → String → Fields
remove end k = end
remove (field j w fs) k = let rest = remove fs k in if j == k then rest else field j w rest

pub get-put :
    (fs : Fields) (k j : String) (v : Json)
    → get (put fs k v) j ≡ (if k == j then some v else get fs j)
unfolding get put
get-put end k j v = refl
get-put (field i w fs) k j v = ground (arith, eq_iff k j, eq_iff i k, eq_iff i j, get-put fs k j v)

pub get-remove :
    (fs : Fields) (k j : String) → get (remove fs k) j ≡ (if k == j then none else get fs j)
unfolding get remove
get-remove end k j = ground arith
get-remove (field i w fs) k j =
    ground (arith, eq_iff k j, eq_iff i k, eq_iff i j, get-remove fs k j)

pub ruleset dict_laws = (get-put, get-remove)

-- `d.get(k, default)`
abbrev pub value_or : Option Json → Json → Json
value_or none d = d
value_or (some v) d = v

-- `bool(v)`
abbrev pub truthy : Json → Bool
truthy null = false
truthy (bool b) = b
truthy (int n) = is_nonzero n
truthy (str s) = not (s == "")
truthy (arr nil) = false
truthy (arr (cons v vs)) = true
truthy (obj end) = false
truthy (obj (field k v fs)) = true

-- `bool(d.get(k))`
abbrev pub has_truthy : Fields → String → Bool
has_truthy fs k = truthy (value_or (get fs k) null)

-- `v == "..."`
abbrev pub is_str : Json → String → Bool
is_str (str s) t = s == t
is_str _ t = false

-- `v[k]`
unfoldable pub item : Json → String → Result Json
item (obj fs) k = elim (get fs k) [ none ↦ err (key_error k) | some v ↦ ok v ]
item _ k = err type_error

-- `v.get(k, default)`
unfoldable pub item_or : Json → String → Json → Result Json
item_or (obj fs) k d = ok (value_or (get fs k) d)
item_or _ k d = err type_error

-- `v[k] = x`
unfoldable pub set_item : Json → String → Json → Result Json
set_item (obj fs) k x = ok (obj (put fs k x))
set_item _ k x = err type_error

-- `v[k] if k in v else None`, where a null is a value that is there
unfoldable pub find_item : Json → String → Result (Option Json)
find_item (obj fs) k = ok (get fs k)
find_item _ k = err type_error
