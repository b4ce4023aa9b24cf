-- ===== src/Podtemplate/Files/Laws.antt =====
-- pkg/podtemplate/podtemplate.go: what ReadFiles returns.
use rke.Base.{
  Bool, true, false, ◌==◌, ==_iff, String, List, [], ◌∷◌, ◌≡◌, ◌≢◌, ◌||◌, inl, inr, refl, arith,
  ◌=ₛ◌, eq_iff, code, any, All, Bool-cases,
}
use text.Mathlib.TextEquality.{Char-path}
use rke.Podtemplate.Files.{text_ltb, add_key}

-- Each text is before the next one; so none is listed twice.
abbrev pub IsSorted : List String → Type 0
IsSorted [] = Unit
IsSorted (x ∷ []) = Unit
IsSorted (x ∷ y ∷ ys) = (text_ltb x y ≡ true) × IsSorted (y ∷ ys)

text_ltb_total : (s t : String) → s ≢ t → text_ltb s t ≡ false → text_ltb t s ≡ true
unfolding text_ltb
text_ltb_total String.[] String.[] h h' = absurd (h refl)
text_ltb_total String.[] (String.◌∷◌ d t) h h' = absurd cc
text_ltb_total (String.◌∷◌ c s) String.[] h h' = refl
text_ltb_total (String.◌∷◌ c s) (String.◌∷◌ d t) h h' = elim (Bool-cases (code c == code d)) [
  | inl same ↦
      let e = Char-path c d ((==_iff (code c) (code d)).0 same) in
      let rest = text_ltb_total s t (λ e'. h (rw (e, e') refl)) (ground arith) in ground arith
  | inr other ↦ ground arith
]

-- A key put into sorted keys, below a text that is before them all.
add_key-IsSorted_under :
    (x k : String) (keys : List String)
    → text_ltb x k ≡ true
    → IsSorted (x ∷ keys)
    → IsSorted (x ∷ add_key k keys)
unfolding add_key
add_key-IsSorted_under x k [] lt h = (lt, tt)
add_key-IsSorted_under x k (j ∷ keys) lt h = elim (Bool-cases (k =ₛ j)) [
  | inl same ↦ rw same h
  | inr other ↦ elim (Bool-cases (text_ltb k j)) [
    | inl before ↦ rw (other, before) (lt, (before, h.1))
    | inr behind ↦
        let after =
          text_ltb_total k j (λ e. absurd (let e' = (eq_iff k j).1 e in ground arith)) behind in
        rw (other, behind) (h.0, add_key-IsSorted_under j k keys after h.1)
  ]
]

pub add_key-IsSorted : (k : String) (keys : List String) → IsSorted keys → IsSorted (add_key k keys)
unfolding add_key
add_key-IsSorted k [] h = tt
add_key-IsSorted k (j ∷ keys) h = elim (Bool-cases (k =ₛ j)) [
  | inl same ↦ rw same h
  | inr other ↦ elim (Bool-cases (text_ltb k j)) [
    | inl before ↦ rw (other, before) (before, h)
    | inr behind ↦
        let after =
          text_ltb_total k j (λ e. absurd (let e' = (eq_iff k j).1 e in ground arith)) behind in
        rw (other, behind) (add_key-IsSorted_under j k keys after h)
  ]
]

-- A property of the keys that are there and of the new one.
pub add_key-All {ℓ} :
    (P : String → Type ℓ) (k : String) (keys : List String)
    → P k
    → All P keys
    → All P (add_key k keys)
unfolding add_key
add_key-All P k [] h hs = (h, tt)
add_key-All P k (j ∷ keys) h hs = elim (Bool-cases (k =ₛ j)) [
  | inl same ↦ rw same hs
  | inr other ↦ elim (Bool-cases (text_ltb k j)) [
    | inl before ↦ rw (other, before) (h, hs)
    | inr behind ↦ rw (other, behind) (hs.0, add_key-All P k keys h hs.1)
  ]
]

-- The list names the file.
abbrev pub is_listed : String → List String → Bool
is_listed f files = any (λ e. e =ₛ f) files

pub add_key-is_listed :
    (f k : String) (keys : List String)
    → is_listed f (add_key k keys) ≡ (k =ₛ f || is_listed f keys)
unfolding add_key
add_key-is_listed f k [] = refl
add_key-is_listed f k (j ∷ keys) =
    ground (arith, add_key-is_listed f k keys, eq_iff k j, eq_iff k f, eq_iff j f)
