-- ===== src/Json.antt =====
-- JSON values as `encoding/json` decodes them into `any`, and the type assertions on them. The text
-- of a number is kept as it is written.
use revchat.Base.{Bool, Option, none, some, List, [], ◌∷◌, if◌then◌else◌, ◌==◌}
use revchat.Base.Text.{Text, text_eq}

mutual
  pub data Json : Type 0 where
    null : Json
    bool : Bool → Json
    num : Text → Json
    str : Text → Json
    arr : Items → Json
    obj : Fields → Json

  pub data Items : Type 0 where
    nil : Items
    cons : Json → Items → Items

  pub data Fields : Type 0 where
    end : Fields
    field : Text → Json → Fields → Fields

-- `m[key]`: a missing key reads as nil.
unfoldable pub get : Text → Fields → Json
get k end = null
get k (field j v m) = if j == k then v else get k m

-- `v.(bool)`, `v.(string)`, `v.(map[string]any)`, `v.([]any)`
unfoldable pub as_bool : Json → Option Bool
as_bool (bool b) = some b
as_bool _ = none

unfoldable pub as_text : Json → Option Text
as_text (str s) = some s
as_text _ = none

unfoldable pub as_object : Json → Option Fields
as_object (obj m) = some m
as_object _ = none

unfoldable pub items : Items → List Json
items nil = []
items (cons v vs) = v ∷ items vs

unfoldable pub as_list : Json → Option (List Json)
unfolding items
as_list (arr vs) = some (items vs)
as_list _ = none
