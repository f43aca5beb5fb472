-- ===== src/Doc.antt =====
-- JSON values, and JSON objects as the lists of their properties: the documents of
-- apps/mobile/src/data/ and the objects that the clients spread, read and send.
pub mod Decimal
pub mod Spread
use Prim.Native.String.{◌++◌ as join}
use Decimal.{show}
use open_troop.Prelude.{
  ℕ, String, Bool, true, false, List, [], ◌∷◌, Option, none, some, str_eq, if◌then◌else◌,
}

mutual
  pub data Json : Type 0 where
    null : Json
    bool : Bool → Json
    num : ℕ → Json
    str : String → Json
    arr : Items → Json
    obj : Properties → Json

  pub data Items : Type 0 where
    nil : Items
    cons : Json → Items → Items

  pub data Properties : Type 0 where
    end : Properties
    property : String → Json → Properties → Properties

-- An object: its keys and values, in order.
abbrev pub Doc : Type 0
Doc = List (String × Json)

abbrev pub properties : Properties → Doc
properties end = []
properties (property k v ps) = (k, v) ∷ properties ps

-- `o[k]`
unfoldable pub get : String → Doc → Option Json
get k [] = none
get k ((j, v) ∷ d) = if str_eq j k then some v else get k d

-- `o[k] = v`: a key that is there keeps its place.
unfoldable pub put : String → Json → Doc → Doc
put k v [] = (k, v) ∷ []
put k v ((j, w) ∷ d) = if str_eq j k then (j, v) ∷ d else (j, w) ∷ put k v d

-- `{ ...base, ...d }`
unfoldable pub spread : Doc → Doc → Doc
spread base [] = base
spread base ((k, v) ∷ d) = spread (put k v base) d

-- `String(v)`. In a list, `null` has no text.
unfoldable mutual
  pub to_text : Json → String
  to_text null = "null"
  to_text (bool true) = "true"
  to_text (bool false) = "false"
  to_text (num n) = show n
  to_text (str s) = s
  to_text (arr xs) = items_text xs
  to_text (obj ps) = "[object Object]"

  pub items_text : Items → String
  items_text nil = ""
  items_text (cons x nil) = item_text x
  items_text (cons x (cons y ys)) = join (item_text x) (join "," (items_text (cons y ys)))

  pub item_text : Json → String
  item_text null = ""
  item_text (bool true) = "true"
  item_text (bool false) = "false"
  item_text (num n) = show n
  item_text (str s) = s
  item_text (arr xs) = items_text xs
  item_text (obj ps) = "[object Object]"
