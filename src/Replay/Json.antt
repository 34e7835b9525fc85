-- ===== src/Replay/Json.antt =====
-- internal/replay/compare.go: the JSON of a body, less its volatile fields. A decoder of JSON is
-- not modelled: it is a parameter of the comparison.
use aquila.Base.{
  ℕ, ◌+◌, Str, codes, Bool, true, false, not, ◌&&◌, Option, none, some, List, [], ◌∷◌, any, ◌==◌,
  if◌then◌else◌, str_eq, ◌≡◌, refl, ap, Bool-cases, inl, inr,
}

-- What json.Unmarshal makes of a text: `number` holds a name of the float64 that it read, and an
-- object the entries of a map, each key once.
mutual
  pub data Json : Type 0 where
    null : Json
    boolean : Bool → Json
    number : Str → Json
    text : Str → Json
    array : Jsons → Json
    object : Fields → Json

  pub data Jsons : Type 0 where
    no_items : Jsons
    item : Json → Jsons → Jsons

  pub data Fields : Type 0 where
    no_fields : Fields
    field : Str → Json → Fields → Fields

abbrev pub volatile_keys : List Str
volatile_keys =
    codes "id"
    ∷ codes "timestamp"
    ∷ codes "request_id"
    ∷ codes "trace_id"
    ∷ codes "span_id"
    ∷ codes "created_at"
    ∷ codes "updated_at"
    ∷ codes "checkout_id"
    ∷ []

abbrev pub is_volatile : Str → Bool
is_volatile k = any (λ v. str_eq v k) volatile_keys

-- stripVolatile.
unfoldable mutual
  pub strip_volatile : Json → Json
  strip_volatile (array items) = array (strip_items items)
  strip_volatile (object fields) = object (strip_fields fields)
  strip_volatile null = null
  strip_volatile (boolean b) = boolean b
  strip_volatile (number n) = number n
  strip_volatile (text s) = text s

  pub strip_items : Jsons → Jsons
  strip_items no_items = no_items
  strip_items (item v rest) = item (strip_volatile v) (strip_items rest)

  pub strip_fields : Fields → Fields
  strip_fields no_fields = no_fields
  strip_fields (field k v fields) =
      let rest = strip_fields fields in
      let here = strip_volatile v in if is_volatile k then rest else field k here rest

abbrev pub find_field : Str → Fields → Option Json
find_field k no_fields = none
find_field k (field l w fields) =
    let rest = find_field k fields in if str_eq k l then some w else rest

abbrev pub count_fields : Fields → ℕ
count_fields no_fields = 0
count_fields (field k v fields) = 1 + count_fields fields

abbrev pub bool_eq : Bool → Bool → Bool
bool_eq true b = b
bool_eq false b = not b

-- reflect.DeepEqual: of two maps, whatever the order of their entries.
unfoldable mutual
  pub json_eq : Json → Json → Bool
  json_eq null null = true
  json_eq (boolean a) (boolean b) = bool_eq a b
  json_eq (number a) (number b) = str_eq a b
  json_eq (text a) (text b) = str_eq a b
  json_eq (array a) (array b) = items_eq a b
  json_eq (object a) (object b) = count_fields a == count_fields b && fields_in a b
  json_eq _ _ = false

  pub items_eq : Jsons → Jsons → Bool
  items_eq no_items no_items = true
  items_eq (item v vs) (item w ws) = json_eq v w && items_eq vs ws
  items_eq _ _ = false

  pub fields_in : Fields → Fields → Bool
  fields_in no_fields b = true
  fields_in (field k v fields) b =
      let rest = fields_in fields b in
      elim (find_field k b) [ none ↦ false | some w ↦ json_eq v w && rest ]

mutual
  unfolding strip_volatile

  strip-again : (v : Json) → strip_volatile (strip_volatile v) ≡ strip_volatile v
  strip-again null = refl
  strip-again (boolean b) = refl
  strip-again (number n) = refl
  strip-again (text s) = refl
  strip-again (array items) = ap array (strip_items-again items)
  strip-again (object fields) = ap object (strip_fields-again fields)

  strip_items-again : (vs : Jsons) → strip_items (strip_items vs) ≡ strip_items vs
  strip_items-again no_items = refl
  strip_items-again (item v vs) = rw (strip-again v, strip_items-again vs)

  strip_fields-again : (fs : Fields) → strip_fields (strip_fields fs) ≡ strip_fields fs
  strip_fields-again no_fields = refl
  strip_fields-again (field k v fs) = elim (Bool-cases (is_volatile k)) [
    | inl y ↦ rw y (strip_fields-again fs)
    | inr n ↦ rw n (rw (n, strip-again v, strip_fields-again fs))
  ]
