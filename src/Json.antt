-- ===== src/Json.antt =====
-- JSON documents, as the JSONB columns and request bodies hold them.
use employed.Base.{
  Bool, String, false, if◌then◌else◌, list_eq, nat_eq, not, option_eq, string_eq, true, ℕ, ◌==◌,
}

mutual
  pub data Json : Type 0 where
    null : Json
    bool : Bool → Json
    num : ℕ → Json
    text : String → Json
    arr : Items → Json
    obj : Fields → Json

  pub data Items : Type 0 where
    nil : Items
    cons : Json → Items → Items

  pub data Fields : Type 0 where
    end : Fields
    field : String → Json → Fields → Fields

-- Python's truth of a decoded value.
unfoldable pub truthy : Json → Bool
truthy null = false
truthy (bool b) = b
truthy (num n) = not (n == 0)
truthy (text s) = not (s == "")
truthy (arr nil) = false
truthy (arr (cons x xs)) = true
truthy (obj end) = false
truthy (obj (field k v fs)) = true

-- `document.get(key)`; a key that is absent and one that holds null read alike.
unfoldable pub get_field : String → Fields → Json
get_field k end = null
get_field k (field j v fs) = if j == k then v else get_field k fs

unfoldable pub is_null : Json → Bool
is_null null = true
is_null _ = false

-- `isinstance(value, dict)` and `isinstance(value, list)`
unfoldable pub is_obj : Json → Bool
is_obj (obj fs) = true
is_obj _ = false

unfoldable pub is_arr : Json → Bool
is_arr (arr xs) = true
is_arr _ = false
