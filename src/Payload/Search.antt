-- ===== src/Payload/Search.antt =====
-- `_search` of `KvPayload`: the keys under which a name, and a value if one is given, is found.
use cortx_utils.Base.{
  ℕ, ◌+◌, Text, Bool, true, false, ◌&&◌, Option, none, some, List, [], ◌∷◌, ◌++◌, ◌==◌,
  if◌then◌else◌,
}
use cortx_utils.Key.{index_suffix, last_segment}
use cortx_utils.Value.{Value, null, str, list, dict, Items, nil, cons, Fields, end, field}
use cortx_utils.Payload.Enumerate.{keys_of}

-- `search_val in (val, None)`: a text is never equal to a number.
unfoldable pub matches : Option Text → Value → Bool
matches none v = true
matches (some t) (str s) = t == s
matches (some t) _ = false

is_none : Option Text → Bool
is_none none = true
is_none (some t) = false

abbrev when : Bool → Text → List Text
when b k = if b then k ∷ [] else []

module _ (d : ℕ) (search_key : Text) (search_val : Option Text) where
  -- `search_val is None and key == search_key`: everything below is listed.
  unfoldable pub takes_all : Text → Bool
  unfolding is_none
  takes_all prefix = is_none search_val && last_segment d prefix == search_key

  abbrev or_all : Value → Text → List Text → List Text
  or_all v prefix inside = if takes_all prefix then keys_of d true [] v (some prefix) else inside

  unfoldable mutual
    pub search_items : Items → ℕ → Text → List Text
    search_items nil i prefix = []
    search_items (cons x xs) i prefix =
        search_elem x (last_segment d prefix == search_key) (prefix ++ index_suffix i)
        ++ search_items xs (i + 1) prefix

    pub search_elem : Value → Bool → Text → List Text
    search_elem (dict fs) here newkey = or_all (dict fs) newkey (search_fields fs newkey)
    search_elem (list xs) here newkey = []
    search_elem null here newkey = []
    search_elem v here newkey = when (here && matches search_val v) newkey

    pub search_fields : Fields → Text → List Text
    search_fields end prefix = []
    search_fields (field k v fs) prefix =
        search_entry v (k == search_key) (prefix ++ (d ∷ k)) ++ search_fields fs prefix

    pub search_entry : Value → Bool → Text → List Text
    search_entry (dict fs) here newkey = or_all (dict fs) newkey (search_fields fs newkey)
    search_entry (list xs) here newkey = or_all (list xs) newkey (search_items xs 0 newkey)
    search_entry null here newkey = []
    search_entry v here newkey = when (here && matches search_val v) newkey

  -- `_search`, which the loops call on what they find.
  unfoldable pub search_at : Value → Text → List Text
  unfolding takes_all search_items
  search_at (list xs) prefix = or_all (list xs) prefix (search_items xs 0 prefix)
  search_at (dict fs) prefix = or_all (dict fs) prefix (search_fields fs prefix)
  search_at v prefix = or_all v prefix []
