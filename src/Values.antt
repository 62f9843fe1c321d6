-- ===== src/Values.antt =====
-- The values that the program keeps in its rows and documents, and Python's `dict` with text keys.
-- A column of a database row holds a scalar; `json.dumps` turns the others into text.
pub mod Objects
use support_triage_llm.Base.{
  ℕ, zero, suc, String, ◌≡◌, refl, Bool, true, false, List, [], ◌∷◌, arith, str_eq, eq_iff, not,
  if◌then◌else◌,
}

-- `time` is a time stamp: the instants that the program writes, as numbers in time order.
mutual
  -- a JSON object: its members in order
  pub data Members : Type 0 where
    no_members : Members
    named : String → Value → Members → Members

  -- a JSON array
  pub data Elements : Type 0 where
    no_elements : Elements
    element : Value → Elements → Elements

  pub data Value : Type 0 where
    null : Value
    flag : Bool → Value
    time num : ℕ → Value
    text : String → Value
    array : Elements → Value
    object : Members → Value

-- bool(v)
unfoldable pub truthy : Value → Bool
truthy null = false
truthy (flag b) = b
truthy (num zero) = false
truthy (num (suc n)) = true
truthy (time t) = true
truthy (text s) = not (str_eq s "")
truthy (array no_elements) = false
truthy (array (element v vs)) = true
truthy (object no_members) = false
truthy (object (named k v fs)) = true

-- a or b
unfoldable pub or_value : Value → Value → Value
or_value a b = if truthy a then a else b

-- whether a column holds this text
unfoldable pub is_text : String → Value → Bool
is_text s (text t) = str_eq t s
is_text s _ = false

abbrev pub Dict : Type 0
Dict = List (String × Value)

-- d.get(k)
unfoldable pub get : String → Dict → Value
get k [] = null
get k ((j, v) ∷ d) = let rest = get k d in if str_eq j k then v else rest

-- k in d
unfoldable pub has : String → Dict → Bool
has k [] = false
has k ((j, v) ∷ d) = let rest = has k d in if str_eq j k then true else rest

-- d[k] = v
unfoldable pub put : String → Value → Dict → Dict
put k v [] = (k, v) ∷ []
put k v ((j, w) ∷ d) = let rest = put k v d in if str_eq j k then (k, v) ∷ d else (j, w) ∷ rest

-- d.update(e)
unfoldable pub merge : Dict → Dict → Dict
unfolding put
merge d [] = d
merge d ((k, v) ∷ e) = merge (put k v d) e

pub get-put :
    (k j : String) (v : Value) (d : Dict) → get j (put k v d) ≡ (if str_eq k j then v else get j d)
unfolding get put
get-put k j v [] = refl
get-put k j v ((i, w) ∷ d) = ground (arith, eq_iff k j, eq_iff i k, eq_iff i j, get-put k j v d)

-- A key that the second dict lacks keeps its value.
pub get-merge_ne : (j : String) (d e : Dict) → has j e ≡ false → get j (merge d e) ≡ get j d
unfolding has merge
get-merge_ne j d [] h = refl
get-merge_ne j d ((k, v) ∷ e) h = ground (arith, get-merge_ne j (put k v d) e, get-put k j v d)
