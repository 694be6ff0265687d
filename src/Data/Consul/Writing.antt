-- ===== src/Data/Consul/Writing.antt =====
-- What `store` writes.
use cortx_utils.Base.{
  Text, [], ◌∷◌, Bool, true, false, ◌==◌, Result, ok, err, ◌≡◌, refl, ap, sym, ◌∙◌,
}
use cortx_utils.Base.Exec.{continue}
use cortx_utils.Key.Words.{lower}
use cortx_utils.Value.{Value, Fields}
use cortx_utils.Activity.Checks.{Json}
use cortx_utils.Data.Models.{Model, attribute}
use cortx_utils.Data.Templates.{new_templates, set_object_type}
use cortx_utils.Data.Converter.Entries.{keep}
use cortx_utils.Data.Consul.{
  Client, ConsulDb, put_checked, check_object, path_of, store, or_external,
}
use cortx_utils.Data.Consul.Store.{IsStore}
use cortx_utils.Data.Consul.Paths.{path_same}

module _ (C : Client) (M : Model) (J : Json) (shown : Value → Text) where
  -- A call of `store` that returns has had its write answered.
  pub store_written :
      (db : ConsulDb) (obj valid : Fields) (path : Text) (w w' : C.World)
      → check_object C M J shown db.model_scheme obj ≡ ok valid
      → path_of C M J shown db (shown (attribute M.primary_key valid)) ≡ ok path
      → store C M J shown db obj w ≡ (ok tt, w')
      → ((C.put_value path (J.dumps (M.to_primitive valid)) w).0 ≡ ok true)
        × (w' ≡ (C.put_value path (J.dumps (M.to_primitive valid)) w).1)
  unfolding store put_checked
  store_written db obj valid path w w' checked found h =
      let run = rw (store, checked, continue) at h in
      answered (C.put_value path (J.dumps (M.to_primitive valid)) w)
        (rw (found, continue, put_checked) at run)
    where
      answered :
          (r : Result Bool × C.World)
          → (let (a, u) = r in continue a (λ response v. (or_external response, v)) u) ≡ (ok tt, w')
          → (r.0 ≡ ok true) × (w' ≡ r.1)
      answered (ok true, u) e = (refl, sym (ap (λ p. p.1) e))
      answered (ok false, u) e = absurd (let bad = ap (λ p. p.0) e in cc)
      answered (err x, u) e = absurd (let bad = ap (λ p. p.0) e in cc)

  module _ (S : IsStore C) where
    -- Of two objects whose identifiers differ in case alone, the one that is stored later takes the
    -- place of the other: it is all that is stored under the path of the first one.
    pub store_collides :
        (db : ConsulDb) (c : Text) (first second valid valid' : Fields) (path : Text)
        (w w' w'' : C.World)
        → set_object_type c new_templates ≡ ok db.templates
        → check_object C M J shown db.model_scheme first ≡ ok valid
        → check_object C M J shown db.model_scheme second ≡ ok valid'
        → lower (shown (attribute M.primary_key valid))
          ≡ lower (shown (attribute M.primary_key valid'))
        → path_of C M J shown db (shown (attribute M.primary_key valid)) ≡ ok path
        → store C M J shown db first w ≡ (ok tt, w')
        → store C M J shown db second w' ≡ (ok tt, w'')
        → keep (λ e. e.key == path) (S.entries w'')
          ≡ (record { key = path; value = J.dumps (M.to_primitive valid') }) ∷ []
    store_collides db c first second valid valid' path w w' w'' h checked checked' same found ran
          ran' =
        let found' =
          sym (
            path_same C M J shown db c (shown (attribute M.primary_key valid))
              (shown (attribute M.primary_key valid')) h same)
          ∙ found in
        let (answered, after) = store_written db second valid' path w' w'' checked' found' ran' in
        ap (λ u. keep (λ e. e.key == path) (S.entries u)) after
        ∙ S.put_value_there path (J.dumps (M.to_primitive valid')) w' answered
