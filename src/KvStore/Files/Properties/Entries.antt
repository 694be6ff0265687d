-- ===== src/KvStore/Files/Properties/Entries.antt =====
-- Entries that are put behind others, where their names are new.
use cortx_utils.Base.{Text, false, ◌==◌, eq_iff, ◌≡◌, ◌≢◌, refl, sym, ap, ◌∙◌, arith}
use cortx_utils.Value.{Value, Fields, end, field}
use cortx_utils.Value.Dict.{put}

abbrev pub IsAbsent : Text → Fields → Type 0
IsAbsent k end = Unit
IsAbsent k (field j v fs) = (j ≢ k) × IsAbsent k fs

-- Each name is there once.
abbrev pub AreDistinct : Fields → Type 0
AreDistinct end = Unit
AreDistinct (field k v fs) = IsAbsent k fs × AreDistinct fs

-- No name of the first dict is in the second.
abbrev pub AreNew : Fields → Fields → Type 0
AreNew end gs = Unit
AreNew (field k v fs) gs = IsAbsent k gs × AreNew fs gs

-- The entries are put in turn.
abbrev pub all_put : Fields → Fields → Fields
all_put end gs = gs
all_put (field k v fs) gs = all_put fs (put k v gs)

abbrev pub behind : Fields → Fields → Fields
behind end gs = gs
behind (field k v fs) gs = field k v (behind fs gs)

apart : (j k : Text) → j ≢ k → (j == k) ≡ false
apart j k ne = ground (arith, eq_iff j k)

put_absent :
    (k : Text) (v : Value) (gs : Fields) → IsAbsent k gs → put k v gs ≡ behind gs (field k v end)
unfolding put
put_absent k v end absent = refl
put_absent k v (field j w gs) (ne, absent) =
    rw (apart j k ne) (ap (λ hs. field j w hs) (put_absent k v gs absent))

behind_assoc : (fs gs hs : Fields) → behind (behind fs gs) hs ≡ behind fs (behind gs hs)
behind_assoc end gs hs = refl
behind_assoc (field k v fs) gs hs = ap (λ ms. field k v ms) (behind_assoc fs gs hs)

behind-IsAbsent :
    (k : Text) (gs hs : Fields) → IsAbsent k gs → IsAbsent k hs → IsAbsent k (behind gs hs)
behind-IsAbsent k end hs absent later = later
behind-IsAbsent k (field j v gs) hs (ne, absent) later = (ne, behind-IsAbsent k gs hs absent later)

behind-AreNew :
    (k : Text) (v : Value) (fs gs : Fields)
    → AreNew fs gs
    → IsAbsent k fs
    → AreNew fs (behind gs (field k v end))
behind-AreNew k v end gs new absent = tt
behind-AreNew k v (field j w fs) gs (first, new) (ne, absent) = (
  behind-IsAbsent j gs (field k v end) first (λ e. ne (sym e), tt),
  behind-AreNew k v fs gs new absent,
)

behind_end : (gs : Fields) → behind gs end ≡ gs
behind_end end = refl
behind_end (field k v gs) = ap (λ hs. field k v hs) (behind_end gs)

end-AreNew : (fs : Fields) → AreNew fs end
end-AreNew end = tt
end-AreNew (field k v fs) = (tt, end-AreNew fs)

all_put_new : (fs gs : Fields) → AreDistinct fs → AreNew fs gs → all_put fs gs ≡ behind gs fs
all_put_new end gs distinct new = sym (behind_end gs)
all_put_new (field k v fs) gs (absent, distinct) (first, new) =
    ap (all_put fs) (put_absent k v gs first)
    ∙ all_put_new fs (behind gs (field k v end)) distinct (behind-AreNew k v fs gs new absent)
    ∙ behind_assoc gs (field k v end) fs

-- Put into an empty dict, the entries are that dict.
pub all_put_end : (fs : Fields) → AreDistinct fs → all_put fs end ≡ fs
all_put_end fs distinct = all_put_new fs end distinct (end-AreNew fs)
