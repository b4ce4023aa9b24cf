-- ===== src/Base/Text/Split.antt =====
-- What `cut`, `split` and `trim_suffix_char` return, against concatenation.
use Prim.Native.Nat.{ℕ}
use Prim.Native.Char.{Char, code}
use Prim.Native.String.{String, ◌++◌ as ◌<>◌}
use mathlib.Core.Path.{◌≡◌, refl, sym, ap, subst}
use mathlib.Core.Logic.{inl, inr}
use mathlib.Core.Bool.{true, false}
use mathlib.Core.Option.{none, some, some-injective, none-ne-some}
use native.Mathlib.Omega.{arith}
use text.Mathlib.TextEquality.{Char-path}
use text.Mathlib.TextLemmas.{nil-append, cons-append}
use rke.Base.Tests.{==_iff, Bool-cases, Option-cases}
use rke.Base.Text.{is, cut, contains_char, before_cons, trim_suffix_char}

is→≡ : (k c : Char) → is (code k) c ≡ true → c ≡ k
is→≡ k c h = Char-path c k ((==_iff (code c) (code k)).0 h)

abbrev IsCut : Char → String → String × String → Type 0
IsCut k s (a, b) = (s ≡ a <> String.◌∷◌ k b) × (contains_char (code k) a ≡ false)

IsCut-cons :
    (k c : Char) (s : String) (p : String × String)
    → is (code k) c ≡ false
    → IsCut k s p
    → IsCut k (String.◌∷◌ c s) (String.◌∷◌ c p.0, p.1)
unfolding contains_char
IsCut-cons k c s (a, b) other (e, free) = (rw cons-append (ap (String.◌∷◌ c) e), rw other free)

cut-IsCut : (k : Char) (s : String) (p : String × String) → cut (code k) s ≡ some p → IsCut k s p
unfolding cut contains_char
cut-IsCut k String.[] p h = cc
cut-IsCut k (String.◌∷◌ c s) p h = elim (Bool-cases (is (code k) c)) [
  | inl same ↦
      subst (IsCut k (String.◌∷◌ c s)) (some-injective _ _ (rw same at h))
        (rw (is→≡ k c same) (sym (nil-append (String.◌∷◌ k s))), refl)
  | inr other ↦ elim (Option-cases (cut (code k) s)) [
    | inl e ↦ absurd (none-ne-some _ (rw (other, e, before_cons) at h))
    | inr (q, e) ↦
        subst (IsCut k (String.◌∷◌ c s)) (some-injective _ _ (rw (other, e, before_cons) at h))
          (IsCut-cons k c s q other (cut-IsCut k s q e))
  ]
]

-- Both sides of the first separator, put together again, are the text; the first has none.
pub cut-eq_some :
    (k : Char) (s : String) {a b : String}
    → cut (code k) s ≡ some (a, b)
    → (s ≡ a <> String.◌∷◌ k b) × (contains_char (code k) a ≡ false)
cut-eq_some k s {a} {b} h = cut-IsCut k s (a, b) h

-- A text with no separator in front of one is cut there.
pub cut-append :
    (k : Char) (a b : String)
    → contains_char (code k) a ≡ false
    → cut (code k) (a <> String.◌∷◌ k b) ≡ some (a, b)
unfolding cut contains_char
cut-append k String.[] b h = rw nil-append (ground arith)
cut-append k (String.◌∷◌ c s) b h = rw cons-append (ground (arith, cut-append k s b))

pub cut-eq_none : (sep : ℕ) (s : String) → contains_char sep s ≡ false → cut sep s ≡ none
unfolding cut contains_char
cut-eq_none sep String.[] h = refl
cut-eq_none sep (String.◌∷◌ c s) h = ground (arith, cut-eq_none sep s)

-- A text of one character in front of another text.
pub char-append : (c : Char) (s : String) → String.◌∷◌ c "" <> s ≡ String.◌∷◌ c s
char-append c s = rw (cons-append, nil-append)

-- A text without the character does not end in it.
pub trim_suffix_char_of_free :
    (sep : ℕ) (s : String) → contains_char sep s ≡ false → trim_suffix_char sep s ≡ s
unfolding trim_suffix_char contains_char
trim_suffix_char_of_free sep String.[] h = refl
trim_suffix_char_of_free sep (String.◌∷◌ c String.[]) h = ground arith
trim_suffix_char_of_free sep (String.◌∷◌ c (String.◌∷◌ d s)) h =
    ap (String.◌∷◌ c) (trim_suffix_char_of_free sep (String.◌∷◌ d s) (ground arith))
