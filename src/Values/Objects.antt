-- ===== src/Values/Objects.antt =====
-- Python's operations on the `dict` that a JSON object is read as. A member that is absent reads as
-- null, and so does a member of a value that is no object.
use support_triage_llm.Base.{
  ℕ, String, Bool, true, false, Option, none, some, List, [], ◌∷◌, str_eq, if◌then◌else◌,
}
use support_triage_llm.Values.{
  Value, null, num, text, array, object, Members, no_members, named, Elements, no_elements, element,
}

unfoldable pub has_member : String → Members → Bool
has_member k no_members = false
has_member k (named j v ms) = let rest = has_member k ms in if str_eq j k then true else rest

unfoldable pub member_of : String → Members → Value
member_of k no_members = null
member_of k (named j v ms) = let rest = member_of k ms in if str_eq j k then v else rest

-- params[k] = v
unfoldable pub set_member : String → Value → Members → Members
set_member k v no_members = named k v no_members
set_member k v (named j w ms) =
    let rest = set_member k v ms in if str_eq j k then named k v ms else named j w rest

-- params.setdefault(k, v)
unfoldable pub default_member : String → Value → Members → Members
unfolding has_member set_member
default_member k v ms = if has_member k ms then ms else set_member k v ms

-- params.pop(k, None)
unfoldable pub pop_member : String → Members → Members
pop_member k no_members = no_members
pop_member k (named j v ms) =
    let rest = pop_member k ms in if str_eq j k then rest else named j v rest

unfoldable pub members_in : Value → Members
members_in (object ms) = ms
members_in _ = no_members

-- v.get(k)
unfoldable pub get_in : String → Value → Value
unfolding member_of members_in
get_in k v = member_of k (members_in v)

-- v or "", of a text
unfoldable pub text_in : Value → String
text_in (text s) = s
text_in _ = ""

unfoldable pub option_text : Value → Option String
option_text (text s) = some s
option_text _ = none

unfoldable pub option_num : Value → Option ℕ
option_num (num n) = some n
option_num _ = none

unfoldable pub list_of : Elements → List Value
list_of no_elements = []
list_of (element v vs) = v ∷ list_of vs

-- v or [], of a list
unfoldable pub list_in : Value → List Value
unfolding list_of
list_in (array vs) = list_of vs
list_in _ = []

unfoldable pub elements_of : List Value → Elements
elements_of [] = no_elements
elements_of (v ∷ vs) = element v (elements_of vs)
