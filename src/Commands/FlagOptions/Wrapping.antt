-- ===== src/Commands/FlagOptions/Wrapping.antt =====
-- pkg/cli/cmds/k3sopts.go: the flags of a wrapped command, by what their options say.
use rke.Base.{
  true, false, String, Option, none, some, List, [], ◌∷◌, ◌++◌, ◌≡◌, ◌≢◌, refl, sym, ap, ◌=ₛ◌,
  eq_iff, if◌then◌else◌, Bool-cases, inl, inr,
}
use mathlib.Core.Path.{subst}
use rke.Base.Dict.{lookup}
use rke.Base.Text.{split}
use rke.Commands.FlagOptions.{
  K3sFlagOption, K3sFlagSet, Flag, FlagType, string_flag, string_slice_flag, int_flag, bool_flag,
  duration_flag, other_flag, no_option, is_supported, parse_name, adjusted, set_values,
  with_default, command_from_k3s,
}
use rke.Commands.FlagOptions.Laws.{kept, all_kept, command_from_k3s-all_kept}

-- `t` where the text is empty, and `u` where it is not.
abbrev pub IsChosen {ℓ} : {A : Type ℓ} → String → A → A → A → Type ℓ
IsChosen text t u x = (text ≡ "" → x ≡ t) × (text ≢ "" → x ≡ u)

IsChosen-if {ℓ} :
    {A : Type ℓ} (text : String) (t u : A) → IsChosen text t u (if text =ₛ "" then t else u)
IsChosen-if text t u = elim (Bool-cases (text =ₛ "")) [
  | inl empty ↦ (λ h. rw empty refl, λ h. absurd (h ((eq_iff text "").0 empty)))
  | inr given ↦ (λ h. absurd (let g = (eq_iff text "").1 h in cc), λ h. rw given refl)
]

IsChosen-map :
    {A B : Type 0} (f : A → B) (text : String) (t u : A) {x : A}
    → IsChosen text t u x
    → IsChosen text (f t) (f u) (f x)
IsChosen-map f text t u h = (λ e. ap f (h.0 e), λ e. ap f (h.1 e))

is_supported-false : (t : FlagType) → is_supported t ≡ false → t ≡ other_flag
is_supported-false other_flag h = refl
is_supported-false (string_flag value) h = absurd cc
is_supported-false (string_slice_flag value) h = absurd cc
is_supported-false int_flag h = absurd cc
is_supported-false bool_flag h = absurd cc
is_supported-false duration_flag h = absurd cc

module _ (set_value : String → List String → List String) where
  -- The values that are set one after another, in an empty slice at first.
  abbrev pub slice_of : List String → List String → List String
  slice_of value [] = value
  slice_of value (v ∷ vs) = slice_of (set_value v value) vs

  set_values-slice_of :
      (value parts : List String) → set_values set_value value parts ≡ slice_of value parts
  set_values-slice_of value [] = refl
  set_values-slice_of value (v ∷ vs) = set_values-slice_of (set_value v value) vs

  -- The value of a flag by the default of its options: only those of a text and of a list of texts have
  -- one.
  abbrev pub HasDefault : String → FlagType → FlagType → Type 0
  HasDefault default (string_flag value) t =
      IsChosen default (string_flag value) (string_flag default) t
  HasDefault default (string_slice_flag value) t =
      IsChosen default (string_slice_flag value)
        (string_slice_flag (slice_of [] (split b',' default))) t
  HasDefault default int_flag t = t ≡ int_flag
  HasDefault default bool_flag t = t ≡ bool_flag
  HasDefault default duration_flag t = t ≡ duration_flag
  HasDefault default other_flag t = t ≡ other_flag

  -- A flag of a known type by its options, and one of another type as it was.
  abbrev pub IsAdjusted : K3sFlagOption → Flag → Flag → Type 0
  IsAdjusted opt flag flag' =
      (flag'.first_name ≡ flag.first_name)
      × (flag'.more_names ≡ flag.more_names)
      × (flag.flag_type ≢ other_flag → IsChosen opt.usage flag.usage opt.usage flag'.usage)
      × (flag.flag_type ≢ other_flag → opt.hide ≡ true → flag'.hidden ≡ true)
      × (flag.flag_type ≢ other_flag → opt.hide ≡ false → flag'.hidden ≡ flag.hidden)
      × HasDefault opt.default flag.flag_type flag'.flag_type
      × (flag.flag_type ≡ other_flag → flag' ≡ flag)

  with_default-HasDefault :
      (default : String) (t : FlagType) → HasDefault default t (with_default set_value default t)
  with_default-HasDefault default (string_flag value) =
      IsChosen-map string_flag default value default (IsChosen-if default value default)
  with_default-HasDefault default (string_slice_flag value) =
      let parts = split b',' default in
      rw (set_values-slice_of [] parts) (
        IsChosen-map string_slice_flag default value (slice_of [] parts)
          (IsChosen-if default value (slice_of [] parts)))
  with_default-HasDefault default int_flag = refl
  with_default-HasDefault default bool_flag = refl
  with_default-HasDefault default duration_flag = refl
  with_default-HasDefault default other_flag = refl

  adjusted-IsAdjusted :
      (opt : K3sFlagOption) (flag : Flag) → IsAdjusted opt flag (adjusted set_value opt flag)
  unfolding adjusted
  adjusted-IsAdjusted opt flag = elim (Bool-cases (is_supported flag.flag_type)) [
    | inl known ↦ rw known (
      refl,
      refl,
      (λ typed. IsChosen-if opt.usage flag.usage opt.usage),
      (λ typed hide. rw hide refl),
      (λ typed hide. rw hide refl),
      with_default-HasDefault opt.default flag.flag_type,
      (λ untyped. absurd (let g = rw untyped at known in cc)),
    )
    | inr other ↦
        let untyped = is_supported-false flag.flag_type other in
        rw other (
          refl,
          refl,
          (λ typed. absurd (typed untyped)),
          (λ typed hide. absurd (typed untyped)),
          (λ typed hide. absurd (typed untyped)),
          subst (λ t. HasDefault opt.default t t) (sym untyped) refl,
          (λ u. refl),
        )
  ]

  -- The flags of a wrapped command, from those of the command: one without options or with Drop is left
  -- out, and each other one is adjusted by its options; a nil pointer stands for empty ones.
  pub data Wraps (opts : K3sFlagSet) : List Flag → List Flag → Type 0 where
    end : Wraps opts [] []
    missing :
        (flag : Flag) (flags new_flags : List Flag)
        → lookup (parse_name flag) opts ≡ none
        → Wraps opts flags new_flags
        → Wraps opts (flag ∷ flags) new_flags
    dropped :
        (flag : Flag) (flags new_flags : List Flag) (opt : K3sFlagOption)
        → lookup (parse_name flag) opts ≡ some (some opt)
        → opt.drop_flag ≡ true
        → Wraps opts flags new_flags
        → Wraps opts (flag ∷ flags) new_flags
    wrapped :
        (flag flag' : Flag) (flags new_flags : List Flag) (opt : K3sFlagOption)
        → lookup (parse_name flag) opts ≡ some (some opt)
        → opt.drop_flag ≡ false
        → IsAdjusted opt flag flag'
        → Wraps opts flags new_flags
        → Wraps opts (flag ∷ flags) (flag' ∷ new_flags)
    wrapped_empty :
        (flag flag' : Flag) (flags new_flags : List Flag)
        → lookup (parse_name flag) opts ≡ some none
        → IsAdjusted no_option flag flag'
        → Wraps opts flags new_flags
        → Wraps opts (flag ∷ flags) (flag' ∷ new_flags)

  kept-Wraps :
      (opts : K3sFlagSet) (flag : Flag) (flags new_flags : List Flag)
      (o : Option (Option K3sFlagOption))
      → lookup (parse_name flag) opts ≡ o
      → Wraps opts flags new_flags
      → Wraps opts (flag ∷ flags) (kept set_value flag o ++ new_flags)
  unfolding adjusted
  kept-Wraps opts flag flags new_flags none found rest = missing flag flags new_flags found rest
  kept-Wraps opts flag flags new_flags (some none) found rest =
      wrapped_empty flag (adjusted set_value no_option flag) flags new_flags found
        (adjusted-IsAdjusted no_option flag) rest
  kept-Wraps opts flag flags new_flags (some (some opt)) found rest =
      elim (Bool-cases opt.drop_flag) [
        | inl drop ↦ rw drop (dropped flag flags new_flags opt found drop rest)
        | inr stays ↦ rw stays (
            wrapped flag (adjusted set_value opt flag) flags new_flags opt found stays
              (adjusted-IsAdjusted opt flag) rest)
      ]

  all_kept-Wraps :
      (opts : K3sFlagSet) (flags : List Flag) → Wraps opts flags (all_kept set_value opts flags)
  all_kept-Wraps opts [] = end
  all_kept-Wraps opts (flag ∷ flags) =
      kept-Wraps opts flag flags (all_kept set_value opts flags) (lookup (parse_name flag) opts)
        refl (all_kept-Wraps opts flags)

  -- The flags of the wrapped command are, in their order, those that have options without Drop. Each keeps
  -- its names; one of a known type has the usage of its options unless that is empty, is hidden if they
  -- say so, and, if it is one of a text or of a list of texts, has their default unless that is empty; one
  -- of another type is as it was.
  pub command_from_k3s-kept :
      (flags : List Flag) (opts : K3sFlagSet)
      → Wraps opts flags ((command_from_k3s set_value flags opts).0)
  command_from_k3s-kept flags opts =
      subst (Wraps opts flags) (sym (command_from_k3s-all_kept set_value flags opts))
        (all_kept-Wraps opts flags)
