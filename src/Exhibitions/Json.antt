-- ===== src/Exhibitions/Json.antt =====
-- pkg/exhibitions/jsonld.go: decoded JSON-LD, and what its values say.
use museumscraper.Prelude.{
  Bool, true, false, ◌||◌, Option, none, some, List, [], ◌∷◌, ◌++◌, if◌then◌else◌,
}
use museumscraper.Text.Bytes.{Bytes, codes, trim, equal}
use museumscraper.Exhibitions.Calendar.{Date}
use museumscraper.Exhibitions.Page.{or_else}
use museumscraper.Exhibitions.Page.Stamps.{leading_day}

-- A decoded value. An object has its fields in the order in which a loop over the map visits them.
mutual
  pub data Value : Type 0 where
    null : Value
    boolean : Bool → Value
    number : Bytes → Value
    string : Bytes → Value
    array : Items → Value
    object : Fields → Value

  pub data Items : Type 0 where
    no_items : Items
    item : Value → Items → Items

  pub data Fields : Type 0 where
    no_fields : Fields
    field : Bytes → Value → Fields → Fields

-- jsonLDString. `field_string` is jsonLDString of the value at a key, which is nil where it is missing.
unfoldable mutual
  pub json_string : Value → Bytes
  json_string null = []
  json_string (boolean b) = []
  json_string (number s) = []
  json_string (string s) = trim s
  json_string (array vs) = first_string vs
  json_string (object fs) =
      or_else (field_string (codes "@value") fs)
        (or_else (field_string (codes "name") fs) (field_string (codes "@id") fs))

  pub first_string : Items → Bytes
  first_string no_items = []
  first_string (item v vs) = or_else (json_string v) (first_string vs)

  pub field_string : Bytes → Fields → Bytes
  field_string key no_fields = []
  field_string key (field k v fs) = elim (equal k key) [
    | true ↦ json_string v
    | false ↦ field_string key fs
  ]

-- jsonLDDate of the value at a key.
unfoldable pub field_date : Bytes → Fields → Option Date
field_date key fs = leading_day (field_string key fs)

-- eventTypes: whether the type is trusted; none for a type that is no event.
abbrev pub event_types : Bytes → Option Bool
event_types s =
    if equal s (codes "exhibitionevent") || equal s (codes "visualartsevent")
    then some true
    else if equal s (codes "event")
    then some false
    else none

module _ (lower : Bytes → Bytes) where
  -- eventType. `seen` is what the entries before say.
  unfoldable mutual
    pub event_type : Value → Option Bool
    event_type null = none
    event_type (boolean b) = none
    event_type (number s) = none
    event_type (string s) = event_types (lower (trim s))
    event_type (array vs) = event_type_in vs none
    event_type (object fs) = none

    pub event_type_in : Items → (seen : Option Bool) → Option Bool
    event_type_in no_items seen = seen
    event_type_in (item v vs) seen = elim (event_type v) [
      | none ↦ event_type_in vs seen
      | some true ↦ some true
      | some false ↦ event_type_in vs (some false)
    ]

  unfoldable pub field_event : Bytes → Fields → Option Bool
  field_event key no_fields = none
  field_event key (field k v fs) =
      let rest = field_event key fs in if equal k key then event_type v else rest

-- The objects for which walkJSONLD calls its function, in their order.
unfoldable mutual
  pub objects : Value → List Fields
  objects null = []
  objects (boolean b) = []
  objects (number s) = []
  objects (string s) = []
  objects (array vs) = objects_in vs
  objects (object fs) = fs ∷ objects_under fs

  pub objects_in : Items → List Fields
  objects_in no_items = []
  objects_in (item v vs) = objects v ++ objects_in vs

  pub objects_under : Fields → List Fields
  objects_under no_fields = []
  objects_under (field k v fs) = objects v ++ objects_under fs
