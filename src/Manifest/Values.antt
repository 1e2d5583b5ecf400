-- ===== src/Manifest/Values.antt =====
-- packages/common-stellar/src/project: the values of a manifest that is parsed from YAML, with the
-- tests of `typeof` and `Array.isArray` on them. What is absent is `undefined`, here `none`.
use subql_stellar.Prelude.{
  String, Option, none, some, List, [], ◌∷◌, Bool, true, false, ◌&&◌, ◌===◌, if◌then◌else◌,
  contains, ◌≡◌, refl,
}

-- A number is kept as its text, a whole number apart from the others.
mutual
  pub data YamlValue : Type 0 where
    null : YamlValue
    boolean : Bool → YamlValue
    integer fraction text : String → YamlValue
    array : YamlItems → YamlValue
    object : YamlFields → YamlValue

  pub data YamlItems : Type 0 where
    no_items : YamlItems
    item : YamlValue → YamlItems → YamlItems

  pub data YamlFields : Type 0 where
    no_fields : YamlFields
    field : String → YamlValue → YamlFields → YamlFields

-- `o[key]`
unfoldable pub get_field : String → YamlFields → Option YamlValue
get_field key no_fields = none
get_field key (field k v fs) = if k === key then some v else get_field key fs

-- Every key of the object is among the names.
unfoldable pub keys_within : List String → YamlFields → Bool
keys_within names no_fields = true
keys_within names (field k v fs) = contains names k && keys_within names fs

-- `Object.keys(o)`
unfoldable pub keys : YamlFields → List String
keys no_fields = []
keys (field k v fs) = k ∷ keys fs

-- `value === undefined || value === null`
abbrev pub is_missing : Option YamlValue → Bool
is_missing none = true
is_missing (some null) = true
is_missing (some (boolean b)) = false
is_missing (some (integer n)) = false
is_missing (some (fraction n)) = false
is_missing (some (text t)) = false
is_missing (some (array xs)) = false
is_missing (some (object fs)) = false

-- A text with a property.
abbrev pub text_with : (String → Bool) → Option YamlValue → Bool
text_with p none = false
text_with p (some null) = false
text_with p (some (boolean b)) = false
text_with p (some (integer n)) = false
text_with p (some (fraction n)) = false
text_with p (some (text t)) = p t
text_with p (some (array xs)) = false
text_with p (some (object fs)) = false

abbrev pub is_text : Option YamlValue → Bool
is_text = text_with (λ t. true)

abbrev pub is_plain_object : Option YamlValue → Bool
is_plain_object none = false
is_plain_object (some null) = false
is_plain_object (some (boolean b)) = false
is_plain_object (some (integer n)) = false
is_plain_object (some (fraction n)) = false
is_plain_object (some (text t)) = false
is_plain_object (some (array xs)) = false
is_plain_object (some (object fs)) = true

abbrev pub is_list : Option YamlValue → Bool
is_list none = false
is_list (some null) = false
is_list (some (boolean b)) = false
is_list (some (integer n)) = false
is_list (some (fraction n)) = false
is_list (some (text t)) = false
is_list (some (array xs)) = true
is_list (some (object fs)) = false

abbrev pub is_whole : Option YamlValue → Bool
is_whole none = false
is_whole (some null) = false
is_whole (some (boolean b)) = false
is_whole (some (integer n)) = true
is_whole (some (fraction n)) = false
is_whole (some (text t)) = false
is_whole (some (array xs)) = false
is_whole (some (object fs)) = false

-- What a text that passes such a test is.
pub text_with_sound :
    (p : String → Bool) (v : Option YamlValue)
    → text_with p v ≡ true
    → (t : String) × (v ≡ some (text t)) × (p t ≡ true)
text_with_sound p none h = cc h
text_with_sound p (some null) h = cc h
text_with_sound p (some (boolean b)) h = cc h
text_with_sound p (some (integer n)) h = cc h
text_with_sound p (some (fraction n)) h = cc h
text_with_sound p (some (text t)) h = (t, refl, h)
text_with_sound p (some (array xs)) h = cc h
text_with_sound p (some (object fs)) h = cc h

pub is_plain_object_sound :
    (v : Option YamlValue) → is_plain_object v ≡ true → (fs : YamlFields) × (v ≡ some (object fs))
is_plain_object_sound none h = cc h
is_plain_object_sound (some null) h = cc h
is_plain_object_sound (some (boolean b)) h = cc h
is_plain_object_sound (some (integer n)) h = cc h
is_plain_object_sound (some (fraction n)) h = cc h
is_plain_object_sound (some (text t)) h = cc h
is_plain_object_sound (some (array xs)) h = cc h
is_plain_object_sound (some (object fs)) h = (fs, refl)

pub is_list_sound :
    (v : Option YamlValue) → is_list v ≡ true → (xs : YamlItems) × (v ≡ some (array xs))
is_list_sound none h = cc h
is_list_sound (some null) h = cc h
is_list_sound (some (boolean b)) h = cc h
is_list_sound (some (integer n)) h = cc h
is_list_sound (some (fraction n)) h = cc h
is_list_sound (some (text t)) h = cc h
is_list_sound (some (array xs)) h = (xs, refl)
is_list_sound (some (object fs)) h = cc h
