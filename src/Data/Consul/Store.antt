-- ===== src/Data/Consul/Store.antt =====
-- The store of keys behind `ConsulDB`, as its documentation has it.
use cortx_utils.Base.{
  Text, codes, List, [], ◌∷◌, ◌++◌, Bool, true, not, starts_with, ◌==◌, Option, none, some, ok, ◌≡◌,
  refl, ap, ◌>>=◌,
}
use cortx_utils.Value.{Value}
use cortx_utils.Key.Words.{lower}
use cortx_utils.Activity.Checks.{Json}
use cortx_utils.Data.Models.{Model}
use cortx_utils.Data.Templates.{get_object_dir}
use cortx_utils.Data.Converter.{Entry}
use cortx_utils.Data.Converter.Entries.{keep}
use cortx_utils.Data.Consul.{Client, ConsulDb, get_all_raw, or_nothing}

-- Is an entry below a path?
abbrev pub is_under : Text → Entry → Bool
is_under prefix e = starts_with e.key prefix

abbrev pub or_none : List Entry → Option (List Entry)
or_none [] = none
or_none (e ∷ es) = some (e ∷ es)

-- The store of keys that Consul documents: a read below a path gives the entries there, or nothing,
-- and what is answered by `True` is done: a deletion has removed the entry of the key, a write has
-- made one of it, and both leave the others.
pub record IsStore (C : Client) : Type 0 where
  pub entries : C.World → List Entry
  pub get_all_under :
      (prefix : Text) (w : C.World)
      → C.get_all prefix w ≡ ok (or_none (keep (is_under prefix) (entries w)))
  pub delete_key_gone :
      (k : Text) (w : C.World)
      → (C.delete_key k w).0 ≡ ok true
      → entries (C.delete_key k w).1 ≡ keep (λ e. not (e.key == k)) (entries w)
  pub put_value_there :
      (k v : Text) (w : C.World)
      → (C.put_value k v w).0 ≡ ok true
      → keep (λ e. e.key == k) (entries (C.put_value k v w).1)
        ≡ (record { key = k; value = v }) ∷ []
  pub put_value_others :
      (k v : Text) (w : C.World)
      → (C.put_value k v w).0 ≡ ok true
      → keep (λ e. not (e.key == k)) (entries (C.put_value k v w).1)
        ≡ keep (λ e. not (e.key == k)) (entries w)

or_nothing-or_none : (es : List Entry) → or_nothing (or_none es) ≡ es
or_nothing-or_none [] = refl
or_nothing-or_none (e ∷ es) = refl

module _ (C : Client) (M : Model) (J : Json) (shown : Value → Text) (S : IsStore C) where
  -- The entries below the path of the objects are read.
  pub get_all_raw-keep :
      (db : ConsulDb) (w : C.World) (dir : Text)
      → get_object_dir none db.templates ≡ ok dir
      → get_all_raw C M J shown db w ≡ ok (keep (is_under (lower dir ++ codes "/")) (S.entries w))
  unfolding get_all_raw
  get_all_raw-keep db w dir found =
      rw (found, ◌>>=◌)
        (rw (S.get_all_under (lower dir ++ codes "/") w, ◌>>=◌)
          (ap ok (or_nothing-or_none (keep (is_under (lower dir ++ codes "/")) (S.entries w)))))
