-- ===== src/Value/Compare/Laws.antt =====
-- What `==` with a text says of a value.
use cortx_utils.Base.{Text, true, ◌≡◌, ap, eq_iff}
use cortx_utils.Value.{Value, str}
use cortx_utils.Value.Compare.{value_eq, atom_eq}

pub value_eq-str : (v : Value) (s : Text) → value_eq v (str s) ≡ true → v ≡ str s
unfolding value_eq atom_eq
value_eq-str (str t) s e = ap str ((eq_iff t s).0 e)
value_eq-str _ s e = absurd cc
