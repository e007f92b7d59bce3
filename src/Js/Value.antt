-- ===== src/Js/Value.antt =====
-- A value of type `unknown`: what `JSON.parse`, a request body or a database row may hold.
use vsn_voice_ai.Prelude.{ℕ, Bool, true, false, Option, none, some, List, [], ◌∷◌, if◌then◌else◌}
use vsn_voice_ai.Js.Text.{Text, text_eq}
use vsn_voice_ai.Js.Number.{Number}

-- `date` is a `Date`, with no instant if it is invalid. An object's fields are in their order, the
-- names distinct in the language; of two fields of one name the first would be read.
mutual
  pub data Value : Type 0 where
    undefined null : Value
    bool : Bool → Value
    num : Number → Value
    str : Text → Value
    date : Option ℕ → Value
    arr : Items → Value
    obj : Fields → Value

  pub data Items : Type 0 where
    nil : Items
    cons : Value → Items → Items

  pub data Fields : Type 0 where
    end : Fields
    field : Text → Value → Fields → Fields

-- `object[name]`, `undefined` if there is none
unfoldable pub get : Fields → Text → Value
get end name = undefined
get (field k v fs) name = if text_eq k name then v else get fs name

-- `Object.keys(object)`
unfoldable pub keys : Fields → List Text
keys end = []
keys (field k v fs) = k ∷ keys fs

unfoldable pub items : Items → List Value
items nil = []
items (cons v vs) = v ∷ items vs

abbrev pub is_undefined : Value → Bool
is_undefined undefined = true
is_undefined _ = false

-- `typeof value === 'string'`
abbrev pub as_text : Value → Option Text
as_text (str s) = some s
as_text _ = none
