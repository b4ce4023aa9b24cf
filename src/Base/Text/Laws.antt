-- ===== src/Base/Text/Laws.antt =====
-- Texts that are put together with a separator, and split again.
use Prim.Native.Nat.{ℕ}
use Prim.Native.Char.{Char, code}
use Prim.Native.String.{String, ◌++◌ as ◌<>◌}
use mathlib.Core.Path.{◌≡◌, refl}
use mathlib.Core.Bool.{false}
use mathlib.Core.List.{[], ◌∷◌}
use native.Mathlib.Omega.{arith}
use text.Mathlib.TextLemmas.{nil-append, cons-append}
use rke.Base.Text.{split, contains_char}

-- What precedes the first separator is the first piece.
pub split-append :
    (k : Char) (a b : String)
    → contains_char (code k) a ≡ false
    → split (code k) (a <> String.◌∷◌ k b) ≡ a ∷ split (code k) b
unfolding split contains_char
split-append k String.[] b h = rw nil-append (ground arith)
split-append k (String.◌∷◌ c s) b h = rw cons-append (ground (arith, split-append k s b))

-- A text without the separator is one piece.
pub split_free : (sep : ℕ) (s : String) → contains_char sep s ≡ false → split sep s ≡ s ∷ []
unfolding split contains_char
split_free sep String.[] h = refl
split_free sep (String.◌∷◌ c s) h = ground (arith, split_free sep s)
