-- ===== src/Value/Seq.antt =====
-- Python's `list`, by the operations that the payload uses.
use cortx_utils.Base.{ℕ, zero, suc, ◌+◌, ◌<◌, ◌≤◌, Option, none, some, ◌≡◌, refl, ap, arith}
use cortx_utils.Value.{Value, Items, nil, cons}

abbrev pub length : Items → ℕ
length nil = 0
length (cons x xs) = suc (length xs)

abbrev pub get_elem? : Items → ℕ → Option Value
get_elem? nil i = none
get_elem? (cons x xs) zero = some x
get_elem? (cons x xs) (suc i) = get_elem? xs i

-- `xs[i] = v` in range; the code never writes out of range.
abbrev pub set : Items → ℕ → Value → Items
set nil i v = nil
set (cons x xs) zero v = cons v xs
set (cons x xs) (suc i) v = cons x (set xs i v)

-- `for _ in range(len(xs), n): xs.append(v)`
abbrev pub extend_to : Items → ℕ → Value → Items
extend_to xs zero v = xs
extend_to nil (suc n) v = cons v (extend_to nil n v)
extend_to (cons x xs) (suc n) v = cons x (extend_to xs n v)

-- `del xs[len(xs) - 1]`
abbrev pub drop_last : Items → Items
drop_last nil = nil
drop_last (cons x nil) = nil
drop_last (cons x (cons y ys)) = cons x (drop_last (cons y ys))

pub length-extend_to : (xs : Items) (n : ℕ) (v : Value) → n ≤ length (extend_to xs n v)
length-extend_to xs zero v = omega arith
length-extend_to nil (suc n) v = omega (arith, length-extend_to nil n v)
length-extend_to (cons x xs) (suc n) v = omega (arith, length-extend_to xs n v)

pub extend_to_id : (xs : Items) (n : ℕ) (v : Value) → n ≤ length xs → extend_to xs n v ≡ xs
extend_to_id xs zero v h = refl
extend_to_id nil (suc n) v h = elim h [ ]
extend_to_id (cons x xs) (suc n) v h = ap (cons x) (extend_to_id xs n v (omega arith))

pub length-set : (xs : Items) (i : ℕ) (v : Value) → length (set xs i v) ≡ length xs
length-set nil i v = refl
length-set (cons x xs) zero v = refl
length-set (cons x xs) (suc i) v = ap suc (length-set xs i v)

pub get_elem?-set_self :
    (xs : Items) (i : ℕ) (v : Value) → i < length xs → get_elem? (set xs i v) i ≡ some v
get_elem?-set_self nil i v h = elim h [ ]
get_elem?-set_self (cons x xs) zero v h = refl
get_elem?-set_self (cons x xs) (suc i) v h = get_elem?-set_self xs i v (omega arith)

pub set-set : (xs : Items) (i : ℕ) (v w : Value) → set (set xs i v) i w ≡ set xs i w
set-set nil i v w = refl
set-set (cons x xs) zero v w = refl
set-set (cons x xs) (suc i) v w = ap (cons x) (set-set xs i v w)

pub get_elem?-some : (xs : Items) (i : ℕ) → i < length xs → (v : Value) × (get_elem? xs i ≡ some v)
get_elem?-some nil i h = elim h [ ]
get_elem?-some (cons x xs) zero h = (x, refl)
get_elem?-some (cons x xs) (suc i) h = get_elem?-some xs i (omega arith)

pub get_elem?-drop_last :
    (xs : Items) (i : ℕ) → length xs ≤ i + 1 → get_elem? (drop_last xs) i ≡ none
get_elem?-drop_last nil i h = refl
get_elem?-drop_last (cons x nil) i h = refl
get_elem?-drop_last (cons x (cons y ys)) zero h = absurd (omega arith)
get_elem?-drop_last (cons x (cons y ys)) (suc i) h = get_elem?-drop_last (cons y ys) i (omega arith)

pub set_self : (xs : Items) (i : ℕ) (v : Value) → get_elem? xs i ≡ some v → set xs i v ≡ xs
set_self nil i v h = refl
set_self (cons x xs) zero v h = cc
set_self (cons x xs) (suc i) v h = ap (cons x) (set_self xs i v h)

pub lt_of_get_elem? : (xs : Items) (i : ℕ) {v : Value} → get_elem? xs i ≡ some v → i < length xs
lt_of_get_elem? nil i h = cc
lt_of_get_elem? (cons x xs) zero h = omega arith
lt_of_get_elem? (cons x xs) (suc i) h = omega (arith, lt_of_get_elem? xs i h)
