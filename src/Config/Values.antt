-- ===== src/Config/Values.antt =====
-- Look-ups in the sections and attributes, and what adding changes of them.
use nermalproxy.Prelude.{
  ℕ, ◌≡◌, refl, ap, ◌∙◌, Bool, true, false, ◌&&◌, List, [], ◌∷◌, ◌++◌, arith, if◌then◌else◌,
  get_elem?, get_elem?_ge,
}
use nermalproxy.CText.{Bytes, str_eq, str_eq_iff}
use nermalproxy.Config.{
  MultiValueAttribute, append_value, append_to, get_value, with_attribute, get_attribute,
  ConfigSection, new_section, ConfigData, with_section, find_section, add_value,
}

-- The values of a key in a section: none if there is no such key.
unfoldable pub values_of : ConfigData → Bytes → Bytes → List Bytes
values_of config section key = (get_attribute (find_section config section).attributes key).values

attribute-with_attribute :
    (value : Bytes) (attrs : List MultiValueAttribute) (key other : Bytes)
    → (get_attribute (with_attribute (append_value value) attrs key) other).values ≡ (
        if str_eq key other
        then (get_attribute attrs other).values ++ value ∷ []
        else (get_attribute attrs other).values)
unfolding get_attribute with_attribute
attribute-with_attribute value [] key other = ground arith
attribute-with_attribute value (a ∷ attrs) key other = ground (
  arith,
  str_eq_iff a.name key,
  str_eq_iff a.name other,
  str_eq_iff key other,
  attribute-with_attribute value attrs key other,
)

section-with_section :
    (f : ConfigSection → ConfigSection) (config : ConfigData) (name other : Bytes)
    → ((s : ConfigSection) → (f s).name ≡ s.name)
    → find_section (with_section f config name) other
      ≡ (if str_eq name other then f (find_section config other) else find_section config other)
unfolding find_section with_section
section-with_section f [] name other h = ground (arith, h (new_section name), str_eq_iff name other)
section-with_section f (s ∷ config) name other h = ground (
  arith,
  h s,
  str_eq_iff s.name name,
  str_eq_iff s.name other,
  str_eq_iff name other,
  section-with_section f config name other h,
)

-- Adding a value to a key of a section appends it to the values of that key in that section, and
-- changes no other values.
pub values_of-add_value :
    (config : ConfigData) (section key value section' key' : Bytes)
    → values_of (add_value config section key value) section' key' ≡ (
        if str_eq section section' && str_eq key key'
        then values_of config section' key' ++ value ∷ []
        else values_of config section' key')
unfolding values_of add_value
values_of-add_value config section key value section' key' =
    ap (λ s. (get_attribute s.attributes key').values)
      (section-with_section (append_to key value) config section section' (λ s. refl))
    ∙ inside (str_eq section section') (find_section config section')
  where
    inside :
        (b : Bool) (s : ConfigSection)
        → (get_attribute (if b then append_to key value s else s).attributes key').values ≡ (
            if b && str_eq key key'
            then (get_attribute s.attributes key').values ++ value ∷ []
            else (get_attribute s.attributes key').values)
    inside true s = attribute-with_attribute value s.attributes key key'
    inside false s = refl

-- Reading the values by index gives the list, and then the end.
pub get_value_lem :
    (a : MultiValueAttribute) (index : ℕ) → get_value a index ≡ get_elem? a.values index
unfolding get_value
get_value_lem a index = ground (arith, get_elem?_ge a.values index)
