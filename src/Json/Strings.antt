-- ===== src/Json/Strings.antt =====
-- `String(value)` of a JSON value, by the rules of JavaScript.
use einvoice.Prelude.{Bool, true, false, [], ◌∷◌, ◌++◌, Text, lit}
use einvoice.Money.{Numerics}
use einvoice.Json.{
  object_constructor, object_constructor_text, Json, null, bool, num, str, arr, obj, Items, nil,
  cons,
}

abbrev pub bool_string : Bool → Text
bool_string true = lit "true"
bool_string false = lit "false"

module _ ⦃n : Numerics⦄ where
  unfoldable mutual
    pub js_string : Json n.Double → Text
    js_string null = lit "null"
    js_string (bool b) = bool_string b
    js_string object_constructor = object_constructor_text
    js_string (num x) = n.number_text x
    js_string (str s) = s
    js_string (arr xs) = js_join xs
    js_string (obj fs) = lit "[object Object]"

    -- `Array.prototype.join`
    pub js_join : Items n.Double → Text
    js_join nil = []
    js_join (cons x nil) = js_element x
    js_join (cons x (cons y xs)) = js_element x ++ (b',' ∷ js_join (cons y xs))

    pub js_element : Json n.Double → Text
    js_element null = []
    js_element (bool b) = bool_string b
    js_element object_constructor = object_constructor_text
    js_element (num x) = n.number_text x
    js_element (str s) = s
    js_element (arr xs) = js_join xs
    js_element (obj fs) = lit "[object Object]"
