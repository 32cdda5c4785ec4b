-- ===== src/Json.antt =====
-- JSON values as the server holds them (jsoncons::json), and the reads and writes of object
-- members. A number is an integer or the bit pattern of an IEEE double.
use kuksa_val.Prelude.{
  ℕ, suc, String, ◌≡◌, refl, Bool, true, false, Option, none, some, List, [], ◌∷◌, arith,
  if◌then◌else◌, str_eq, eq_iff,
}
use kuksa_val.Prelude.Int.{ℤ}

mutual
  pub data Json : Type 0 where
    null : Json
    bool : Bool → Json
    int : ℤ → Json
    double : ℕ → Json
    str : String → Json
    arr : Items → Json
    obj : Members → Json

  pub data Items : Type 0 where
    nil : Items
    item : Json → Items → Items

  pub data Members : Type 0 where
    end : Members
    member : String → Json → Members → Members

-- A default-constructed jsoncons::json is an object without members.
abbrev pub empty : Json
empty = obj end

unfoldable pub lookup : String → Members → Option Json
lookup k end = none
lookup k (member j v ms) = if str_eq j k then some v else lookup k ms

-- One member for each name: an assignment replaces the member of that name.
unfoldable pub assign : String → Json → Members → Members
assign k v end = member k v end
assign k v (member j w ms) = if str_eq j k then member k v ms else member j w (assign k v ms)

unfoldable pub remove : String → Members → Members
remove k end = end
remove k (member j w ms) = let rest = remove k ms in if str_eq j k then rest else member j w rest

pub lookup-assign :
    (k j : String) (v : Json) (ms : Members)
    → lookup j (assign k v ms) ≡ (if str_eq k j then some v else lookup j ms)
unfolding lookup assign
lookup-assign k j v end = refl
lookup-assign k j v (member i w ms) =
    ground (arith, eq_iff k j, eq_iff i k, eq_iff i j, lookup-assign k j v ms)

pub lookup-remove :
    (k j : String) (ms : Members)
    → lookup j (remove k ms) ≡ (if str_eq k j then none else lookup j ms)
unfolding lookup remove
lookup-remove k j end = ground arith
lookup-remove k j (member i w ms) =
    ground (arith, eq_iff k j, eq_iff i k, eq_iff i j, lookup-remove k j ms)

-- `j.find(k)`: the member, if `j` is an object that has one of this name.
abbrev pub find : String → Json → Option Json
find k (obj ms) = lookup k ms
find k _ = none

abbrev pub is_some : Option Json → Bool
is_some none = false
is_some (some v) = true

-- `j.contains(k)`, false for what is no object.
abbrev pub contains : String → Json → Bool
contains k j = is_some (find k j)

abbrev pub items : Items → List Json
items nil = []
items (item v vs) = v ∷ items vs

abbrev pub members : Members → List (String × Json)
members end = []
members (member k v ms) = (k, v) ∷ members ms

-- `j.size()`: of arrays and objects, 0 for all else.
abbrev pub count_items : Items → ℕ
count_items nil = 0
count_items (item v vs) = suc (count_items vs)

abbrev pub count_members : Members → ℕ
count_members end = 0
count_members (member k v ms) = suc (count_members ms)

abbrev pub size : Json → ℕ
size (arr vs) = count_items vs
size (obj ms) = count_members ms
size _ = 0
