-- ===== src/Data/Consul/Paths.antt =====
-- The paths of the objects of a collection.
use cortx_utils.Base.{
  ℕ, Text, codes, List, [], ◌∷◌, ◌++◌, append_assoc, append-nil, Bool, true, false, not, ◌&&◌,
  starts_with, ◌==◌, Option, none, some, Result, ok, err, find, ◌>>=◌, ◌≡◌, refl, ap, sym, ◌∙◌,
  arith, ◌=ℕ◌, =ℕ_refl, inl, inr,
}
use cortx_utils.Base
use cortx_utils.Key.Words.{lower}
use cortx_utils.Value.{Value}
use cortx_utils.Activity.Checks.{Json}
use cortx_utils.Data.Models.{Model}
use cortx_utils.Data.Templates.{
  ConsulKeyTemplate, new_templates, set_object_type, get_object_dir, get_object_path, substitute,
  safe_substitute, render_template, literal, placeholder, object_uuid, property_name,
  property_value,
}
use cortx_utils.Data.Consul.{Client, ConsulDb, path_of}

lower-append : (s t : Text) → lower (s ++ t) ≡ lower s ++ lower t
unfolding lower
lower-append [] t = refl
lower-append (c ∷ s) t = rw (lower-append s t) refl

starts_with-append : (p s : Text) → starts_with (p ++ s) p ≡ true
unfolding starts_with
starts_with-append [] [] = refl
starts_with-append [] (c ∷ s) = refl
starts_with-append (c ∷ p) s = rw (=ℕ_refl c, starts_with-append p s) refl

lower_path :
    (c a b : Text)
    → lower a ≡ lower b
    → lower (codes "cortx/base/" ++ (c ++ (codes "/obj" ++ (codes "/" ++ (a ++ [])))))
      ≡ lower (codes "cortx/base/" ++ (c ++ (codes "/obj" ++ (codes "/" ++ (b ++ [])))))
unfolding lower
lower_path c a b same = simp (append-nil) (simp (lower-append, same) refl)

slash : (t : Text) → lower (codes "/" ++ t) ≡ codes "/" ++ lower t
unfolding lower
slash t = refl

-- The templates of a collection.
abbrev pub made : Text → ConsulKeyTemplate
made c = record {
  root_template = literal (codes "cortx/base/" ++ (c ++ [])) ∷ [];
  dir_template = literal (codes "cortx/base/" ++ (c ++ (codes "/obj" ++ []))) ∷ [];
  path_template =
      literal (codes "cortx/base/")
      ∷ literal c
      ∷ literal (codes "/obj")
      ∷ literal (codes "/")
      ∷ placeholder object_uuid
      ∷ [];
  property_template =
      literal (codes "cortx/base/")
      ∷ literal c
      ∷ literal (codes "/prop/")
      ∷ placeholder property_name
      ∷ literal (codes "/")
      ∷ placeholder property_value
      ∷ [];
  object_type_is_set = true;
}

pub set_object_type_lem : (c : Text) → set_object_type c new_templates ≡ ok (made c)
unfolding set_object_type substitute safe_substitute find ◌==◌
set_object_type_lem c = refl

made_eq : (c : Text) (t : ConsulKeyTemplate) → set_object_type c new_templates ≡ ok t → t ≡ made c
made_eq c t h = let same : Base.ok t ≡ ok (made c) = sym h ∙ set_object_type_lem c in cc

-- The directory of a collection, and the path of an object in it.
abbrev pub dir_text : Text → Text
dir_text c = codes "cortx/base/" ++ (c ++ (codes "/obj" ++ []))

abbrev pub path_text : Text → Text → Text
path_text c uuid = codes "cortx/base/" ++ (c ++ (codes "/obj" ++ (codes "/" ++ (uuid ++ []))))

pub get_object_dir_lem :
    (c : Text) (t : ConsulKeyTemplate)
    → set_object_type c new_templates ≡ ok t
    → get_object_dir none t ≡ ok (dir_text c)
unfolding get_object_dir render_template substitute
get_object_dir_lem c t h = rw (made_eq c t h) (ap (λ s. ok s) (append-nil _))

get_object_path_lem :
    (c uuid : Text) (t : ConsulKeyTemplate)
    → set_object_type c new_templates ≡ ok t
    → get_object_path uuid none t ≡ ok (path_text c uuid)
unfolding get_object_path render_template substitute find ◌==◌
get_object_path_lem c uuid t h = rw (made_eq c t h) refl

-- The path of an object is below that of its collection.
pub under_path :
    (c uuid : Text)
    → starts_with (lower (path_text c uuid)) (lower (dir_text c) ++ codes "/") ≡ true
under_path c uuid =
    rw whole (starts_with-append (lower (dir_text c) ++ codes "/") (lower (uuid ++ [])))
  where
    parts : path_text c uuid ≡ dir_text c ++ (codes "/" ++ (uuid ++ []))
    parts = simp (append_assoc, append-nil) refl

    whole : lower (path_text c uuid) ≡ (lower (dir_text c) ++ codes "/") ++ lower (uuid ++ [])
    whole =
        ap lower parts
        ∙ lower-append (dir_text c) (codes "/" ++ (uuid ++ []))
        ∙ ap (λ t. lower (dir_text c) ++ t) (slash (uuid ++ []))
        ∙ sym (append_assoc (lower (dir_text c)) (codes "/") (lower (uuid ++ [])))

module _ (C : Client) (M : Model) (J : Json) (shown : Value → Text) where
  pub path_of_lem :
      (db : ConsulDb) (c uuid : Text)
      → set_object_type c new_templates ≡ ok db.templates
      → path_of C M J shown db uuid ≡ ok (lower (path_text c uuid))
  unfolding path_of
  path_of_lem db c uuid h = rw (get_object_path_lem c uuid db.templates h) refl

  -- Identifiers that differ in case alone have one path.
  pub path_same :
      (db : ConsulDb) (c a b : Text)
      → set_object_type c new_templates ≡ ok db.templates
      → lower a ≡ lower b
      → path_of C M J shown db a ≡ path_of C M J shown db b
  path_same db c a b h same =
      path_of_lem db c a h ∙ ap ok (lower_path c a b same) ∙ sym (path_of_lem db c b h)
