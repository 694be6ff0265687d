-- ===== src/Ha/Validation/Laws.antt =====
-- What a schema that was accepted has.
use cortx_utils.Base.{
  Text, codes, Bool, true, false, List, [], ◌∷◌, ◌||◌, ◌≡◌, refl, ok, err, Result, ◌>>=◌,
  Result-cases, inl, inr, arith,
}
use cortx_utils.Value.{Value, dict, Items, nil, cons, Fields, end, field}
use cortx_utils.Value.Access.{is_in}
use cortx_utils.Ha.Validation.{
  is_missing, any_missing, named_by, any_invalid, resources_of, raise_if, validate_resources,
  validate_cycle, execute,
}

-- Each of the names is that of a resource.
abbrev pub AreKnown : Fields → Items → Type 0
AreKnown resources nil = Unit
AreKnown resources (cons name names) =
    (is_in name (dict resources) ≡ ok true) × AreKnown resources names

-- Each resource lists names of resources under `kind`.
abbrev pub IsClosed : Text → Fields → Fields → Type 0
IsClosed kind resources end = Unit
IsClosed kind resources (field k resource others) =
    ((names : Items) × (named_by kind resource ≡ ok names) × AreKnown resources names)
    × IsClosed kind resources others

-- What a chain of two calls that returns went through.
first_ok :
    {A B : Type 0} {b : B} (r : Result A) (f : A → Result B)
    → (r >>= f) ≡ ok b
    → (a : A) × (r ≡ ok a) × (f a ≡ ok b)
first_ok (ok a) f fine = (a, refl, fine)
first_ok (err e) f fine = absurd cc

neither :
    (r s : Result Bool)
    → (r >>= λ bad. s >>= λ more. ok (bad || more)) ≡ ok false
    → (r ≡ ok false) × (s ≡ ok false)
neither (ok false) (ok false) fine = (refl, refl)
neither (ok false) _ fine = absurd cc
neither (ok true) (ok b) fine = absurd cc
neither (ok true) _ fine = absurd cc
neither (err e) s fine = absurd cc

known_name :
    (resources : Fields) (resource name : Value)
    → is_missing resources resource name ≡ ok false
    → is_in name (dict resources) ≡ ok true
unfolding is_missing
known_name resources resource name fine = elim (Result-cases (is_in name (dict resources))) [
  | inl (true, known) ↦ known
  | inl (false, known) ↦ absurd (ground (arith, rw (known, ◌>>=◌) at fine))
  | inr (e, raised) ↦ absurd (ground (arith, rw (raised, ◌>>=◌) at fine))
]

any_missing-AreKnown :
    (resources : Fields) (resource : Value) (names : Items)
    → any_missing resources resource names ≡ ok false
    → AreKnown resources names
unfolding any_missing
any_missing-AreKnown resources resource nil fine = tt
any_missing-AreKnown resources resource (cons name names) fine =
    let (one, rest) =
      neither (is_missing resources resource name) (any_missing resources resource names) fine in
    (known_name resources resource name one, any_missing-AreKnown resources resource names rest)

any_invalid-IsClosed :
    (kind : Text) (resources others : Fields)
    → any_invalid kind resources others ≡ ok false
    → IsClosed kind resources others
unfolding any_invalid
any_invalid-IsClosed kind resources end fine = tt
any_invalid-IsClosed kind resources (field k resource others) fine =
    let (one, rest) =
      neither (named_by kind resource >>= any_missing resources resource)
        (any_invalid kind resources others) fine in
    let (names, listed, all_known) =
      first_ok (named_by kind resource) (any_missing resources resource) one in
    (
      (names, listed, any_missing-AreKnown resources resource names all_known),
      any_invalid-IsClosed kind resources others rest,
    )

none_raised : (b : Bool) → raise_if b ≡ ok tt → b ≡ false
none_raised true fine = absurd cc
none_raised false fine = refl

validate_resources-IsClosed :
    (kind : Text) (schema : Value)
    → validate_resources kind schema ≡ ok tt
    → (resources : Fields) × (resources_of schema ≡ ok resources)
      × IsClosed kind resources resources
unfolding validate_resources
validate_resources-IsClosed kind schema fine =
    let (resources, read, checked) =
      first_ok (resources_of schema) (λ rs. any_invalid kind rs rs >>= raise_if) fine in
    let (bad, found, quiet) = first_ok (any_invalid kind resources resources) raise_if checked in
    (
      resources,
      read,
      any_invalid-IsClosed kind resources resources (rw (none_raised bad quiet) at found),
    )

-- A schema that `execute` accepts has no cycle in its graph of orders, and each resource in it names
-- resources of the schema alone, for its predecessors, its colocation and its relation.
pub execute-IsClosed :
    (cycles : List (List Text)) (schema : Value)
    → execute cycles schema ≡ ok tt
    → (cycles ≡ [])
      × (resources : Fields) × (resources_of schema ≡ ok resources)
      × IsClosed (codes "predecessors") resources resources
      × IsClosed (codes "colocation") resources resources
      × IsClosed (codes "relation") resources resources
unfolding execute validate_cycle
execute-IsClosed (cycle ∷ cycles) schema fine = absurd cc
execute-IsClosed [] schema fine =
    let colocation = validate_resources (codes "colocation") schema in
    let predecessors = validate_resources (codes "predecessors") schema in
    let relation = validate_resources (codes "relation") schema in
    let (_, first, after) = first_ok colocation (λ _. predecessors >>= λ _. relation) fine in
    let (_, second, last) = first_ok predecessors (λ _. relation) after in
    let (rs, read, one) = validate_resources-IsClosed (codes "colocation") schema first in
    let (rs', read', two) = validate_resources-IsClosed (codes "predecessors") schema second in
    let (rs'', read'', three) = validate_resources-IsClosed (codes "relation") schema last in
    let same' : rs' ≡ rs = cc in
    let same'' : rs'' ≡ rs = cc in (refl, rs, read, rw same' at two, one, rw same'' at three)
