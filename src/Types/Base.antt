-- ===== src/Types/Base.antt =====
-- pkg/types/domain.go: what all records share. A `time.Time` is a number of nanoseconds, a
-- `*time.Time` an `Option`, and a `float64` a number of thousandths. Metadata (`map[string]any`) is
-- an association list, and a nil map an empty one.
use change_control_plane.Prelude.{ℕ, String, Bool, List, []}
use change_control_plane.Prelude.Int.{ℤ}
use change_control_plane.Prelude.{Assoc}

abbrev pub Time : Type 0
Time = ℕ

abbrev pub Float : Type 0
Float = ℤ

mutual
  pub data Any : Type 0 where
    text : String → Any
    texts : List String → Any
    float : Float → Any
    int : ℤ → Any
    object : Object → Any
    -- of the type `types.Metadata`, which is not `map[string]any` to a type assertion
    metadata : Object → Any
    -- `[]any`
    list : Items → Any
    -- `map[string]string`
    strings : List (String × String) → Any
    -- `[]map[string]any` and `[]types.Metadata`
    objects metadatas : Objects → Any
    bool : Bool → Any

  pub data Items : Type 0 where
    nil : Items
    cons : Any → Items → Items

  pub data Objects : Type 0 where
    no_objects : Objects
    one_more : Object → Objects → Objects

  pub data Object : Type 0 where
    end : Object
    entry : String → Any → Object → Object

abbrev pub Metadata : Type 0
Metadata = Assoc Any

abbrev pub RiskLevel : Type 0
RiskLevel = String

abbrev pub ActorType : Type 0
ActorType = String

pub record BaseRecord : Type 0 where
  pub id : String
  pub created_at : Time
  pub updated_at : Time
  pub metadata : Metadata

-- Go's zero value
abbrev pub zero_base_record : BaseRecord
zero_base_record = record { id = ""; created_at = 0; updated_at = 0; metadata = [] }
