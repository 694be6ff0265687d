-- ===== src/Data/Converter/Entries.antt =====
-- Lists of entries: their keys, and what is kept of them.
use cortx_utils.Base.{
  Text, List, [], ◌∷◌, ◌++◌, Bool, true, false, not, ◌&&◌, ◌||◌, if◌then◌else◌, contains, ◌==◌,
  eq_iff, ◌≡◌, refl, ap, arith, Bool-cases, inl, inr,
}
use cortx_utils.Data.Converter.{Entry, intersection}

abbrev pub keys : List Entry → List Text
keys [] = []
keys (e ∷ es) = e.key ∷ keys es

-- The entries that pass a test.
abbrev pub keep : (Entry → Bool) → List Entry → List Entry
keep p [] = []
keep p (e ∷ es) = if p e then e ∷ keep p es else keep p es

abbrev pub All {ℓ} : (Entry → Type ℓ) → List Entry → Type ℓ
All P [] = Unit
All P (e ∷ es) = P e × All P es

-- Every key stands once.
abbrev pub AreDistinct : List Entry → Type 0
AreDistinct [] = Unit
AreDistinct (e ∷ es) = (contains e.key (keys es) ≡ false) × AreDistinct es

pub All-map {ℓ κ} :
    {P : Entry → Type ℓ} {Q : Entry → Type κ} (f : (e : Entry) → P e → Q e) (es : List Entry)
    → All P es
    → All Q es
All-map f [] h = tt
All-map f (e ∷ es) (h, hs) = (f e h, All-map f es hs)

pub All-both {ℓ κ} :
    (P : Entry → Type ℓ) (Q : Entry → Type κ) (es : List Entry)
    → All P es
    → All Q es
    → All (λ e. P e × Q e) es
All-both P Q [] h k = tt
All-both P Q (e ∷ es) (h, hs) (k, ks) = ((h, k), All-both P Q es hs ks)

pub keep_cong :
    (p q : Entry → Bool) (es : List Entry) → All (λ e. p e ≡ q e) es → keep p es ≡ keep q es
keep_cong p q [] h = refl
keep_cong p q (e ∷ es) (h, hs) = rw (h, keep_cong p q es hs) refl

pub keep_ext :
    (p q : Entry → Bool) (es : List Entry) → ((e : Entry) → p e ≡ q e) → keep p es ≡ keep q es
keep_ext p q [] h = refl
keep_ext p q (e ∷ es) h = rw (h e, keep_ext p q es h) refl

pub keep_all : (es : List Entry) → keep (λ e. true) es ≡ es
keep_all [] = refl
keep_all (e ∷ es) = rw (keep_all es) refl

pub keep-keep :
    (p q : Entry → Bool) (es : List Entry) → keep p (keep q es) ≡ keep (λ e. q e && p e) es
keep-keep p q [] = refl
keep-keep p q (e ∷ es) = elim (Bool-cases (q e)) [
  | inl yes_q ↦ rw (yes_q, keep-keep p q es) refl
  | inr no_q ↦ rw (no_q, keep-keep p q es) refl
]

pub contains-intersection :
    (k : Text) (js ks : List Text)
    → contains k (intersection js ks) ≡ (contains k js && contains k ks)
unfolding contains intersection
contains-intersection k [] ks = refl
contains-intersection k (j ∷ js) ks = ground (arith, contains-intersection k js ks, eq_iff k j)

pub contains-append :
    (k : Text) (js ks : List Text) → contains k (js ++ ks) ≡ (contains k js || contains k ks)
unfolding contains
contains-append k [] ks = refl
contains-append k (j ∷ js) ks = ground (arith, contains-append k js ks)

-- A key that is not there is not there among those that are kept.
pub contains-keep :
    (k : Text) (q : Entry → Bool) (es : List Entry)
    → contains k (keys es) ≡ false
    → contains k (keys (keep q es)) ≡ false
unfolding contains
contains-keep k q [] h = refl
contains-keep k q (e ∷ es) h = ground (arith, contains-keep k q es)

pub AreDistinct-keep :
    (q : Entry → Bool) (es : List Entry) → AreDistinct es → AreDistinct (keep q es)
AreDistinct-keep q [] d = tt
AreDistinct-keep q (e ∷ es) (new, d) = elim (Bool-cases (q e)) [
  | inl kept ↦ rw kept (contains-keep e.key q es new, AreDistinct-keep q es d)
  | inr dropped ↦ rw dropped (AreDistinct-keep q es d)
]

-- The keys of the other entries are other keys.
pub apart :
    (k : Text) (es : List Entry) → contains k (keys es) ≡ false → All (λ e. (e.key == k) ≡ false) es
unfolding contains
apart k [] h = tt
apart k (e ∷ es) h = (ground (arith, eq_iff k e.key, eq_iff e.key k), apart k es (ground arith))

-- Of entries with distinct keys, those have the key of one that is kept that are kept.
pub contains-keys_keep :
    (q : Entry → Bool) (es : List Entry)
    → AreDistinct es
    → All (λ e. contains e.key (keys (keep q es)) ≡ q e) es
unfolding contains
contains-keys_keep q [] d = tt
contains-keys_keep q (e ∷ es) (new, d) = (
  ground (arith, contains-keep e.key q es, eq_iff e.key e.key),
  All-map
      (λ f (h : ((f.key == e.key) ≡ false) × (contains f.key (keys (keep q es)) ≡ q f)).
        ground arith)
      es (All-both _ _ es (apart e.key es new) (contains-keys_keep q es d)),
)

keep_none :
    (q : Entry → Bool) (k : Text) (es : List Entry)
    → keep (λ e. e.key == k) es ≡ []
    → All (λ e. q e ≡ false) (keep (λ e. not (e.key == k)) es)
    → keep q es ≡ []
keep_none q k [] only none_of = refl
keep_none q k (e ∷ es) only none_of = elim (Bool-cases (e.key == k)) [
  | inl same ↦ absurd (let bad = rw same at only in cc)
  | inr other ↦ let (h, hs) = rw other at none_of in rw h (keep_none q k es (rw other at only) hs)
]

-- If one entry alone has a key, and of all entries it alone passes a test, it is what is kept.
pub keep_one :
    (q : Entry → Bool) (k : Text) (x : Entry) (es : List Entry)
    → keep (λ e. e.key == k) es ≡ x ∷ []
    → All (λ e. q e ≡ false) (keep (λ e. not (e.key == k)) es)
    → q x ≡ true
    → keep q es ≡ x ∷ []
keep_one q k x [] only none_of passes = absurd cc
keep_one q k x (e ∷ es) only none_of passes = elim (Bool-cases (e.key == k)) [
  | inl same ↦
      let both = rw same at only in
      let first : e ≡ x = cc in
      let rest : keep (λ e. e.key == k) es ≡ [] = cc in
      rw (first, passes) (ap (λ ys. x ∷ ys) (keep_none q k es rest (rw same at none_of)))
  | inr other ↦
      let (h, hs) = rw other at none_of in rw h (keep_one q k x es (rw other at only) hs passes)
]
