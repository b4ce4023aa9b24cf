-- ===== src/Commands/FlagOptions/Laws.antt =====
-- pkg/cli/cmds/k3sopts.go: when a command is wrapped without an error, and which flags it has then.
use rke.Base.{
  or_false, Bool, true, false, ◌||◌, String, Option, none, some, List, [], ◌∷◌, ◌++◌, ◌≡◌, refl,
  ◌=ₛ◌, if◌then◌else◌, ap, sym, ◌∙◌, ◌↔◌, any, All, Bool-cases, inl, inr,
}
use rke.Base.Dict.{lookup}
use rke.Commands.FlagOptions.{
  K3sFlagOption, K3sFlagSet, Flag, FlagError, Wrapped, missing_options, unsupported_type,
  parse_name, is_supported, adjusted, or_no_option, wrap_flag, wrap_flags, is_ignored,
  unknown_flags, command_from_k3s,
}

-- There are options for the flag, and it is dropped or of a type that can be adjusted.
abbrev pub IsAccepted : Flag → Option (Option K3sFlagOption) → Type 0
IsAccepted flag none = ⊥
IsAccepted flag (some opt) = ((or_no_option opt).drop_flag || is_supported flag.flag_type) ≡ true

append_nil : {A : Type 0} (l : List A) → l ++ [] ≡ l
append_nil [] = refl
append_nil (x ∷ xs) = ap (λ l. x ∷ l) (append_nil xs)

append_assoc : {A : Type 0} (xs ys zs : List A) → (xs ++ ys) ++ zs ≡ xs ++ (ys ++ zs)
append_assoc [] ys zs = refl
append_assoc (x ∷ xs) ys zs = ap (λ l. x ∷ l) (append_assoc xs ys zs)

append-eq-nil : {A : Type 0} (xs ys : List A) → xs ++ ys ≡ [] → (xs ≡ []) × (ys ≡ [])
append-eq-nil [] ys h = (refl, h)
append-eq-nil (x ∷ xs) ys h = absurd cc

abbrev nothing_seen : Wrapped
nothing_seen = record { new_flags = []; seen = []; errs = [] }

or_swap : (a b c : Bool) → (a || (b || c)) ≡ ((b || a) || c)
or_swap true true c = refl
or_swap true false c = refl
or_swap false true c = refl
or_swap false false c = refl

unknown_flags_iff :
    (seen : List String) (opts : K3sFlagSet)
    → (unknown_flags seen opts ≡ [])
      ↔ All (λ e. (any (λ n. n =ₛ e.0) seen || is_ignored e.1) ≡ true) opts
unfolding unknown_flags
unknown_flags_iff seen [] = (λ h. tt, λ h. refl)
unknown_flags_iff seen ((k, v) ∷ opts) =
    let rest = unknown_flags_iff seen opts in
    elim (Bool-cases (any (λ n. n =ₛ k) seen || is_ignored v)) [
      | inl known ↦ rw known (λ h. (refl, rest.0 h), λ h. rest.1 h.1)
      | inr other ↦ rw other (λ h. absurd cc, λ h. absurd (let g = h.0 in cc))
    ]

module _ (set_value : String → List String → List String) where
  -- What is to become of the flag.
  abbrev pub kept : Flag → Option (Option K3sFlagOption) → List Flag
  kept flag none = []
  kept flag (some opt) =
      if (or_no_option opt).drop_flag then [] else adjusted set_value (or_no_option opt) flag ∷ []

  abbrev pub all_kept : K3sFlagSet → List Flag → List Flag
  all_kept opts [] = []
  all_kept opts (flag ∷ flags) = kept flag (lookup (parse_name flag) opts) ++ all_kept opts flags

  wrap_flag-new_flags :
      (flag : Flag) (o : Option (Option K3sFlagOption)) (w : Wrapped)
      → (wrap_flag set_value flag o w).new_flags ≡ w.new_flags ++ kept flag o
  wrap_flag-new_flags flag none w = sym (append_nil w.new_flags)
  wrap_flag-new_flags flag (some opt) w = elim (Bool-cases (or_no_option opt).drop_flag) [
    | inl dropped ↦ rw dropped (sym (append_nil w.new_flags))
    | inr stays ↦ rw stays refl
  ]

  -- An error of the flag is added to those before.
  wrap_flag-errs :
      (flag : Flag) (o : Option (Option K3sFlagOption)) (w : Wrapped)
      → (e : List FlagError) × ((wrap_flag set_value flag o w).errs ≡ w.errs ++ e)
        × ((e ≡ []) ↔ IsAccepted flag o)
  wrap_flag-errs flag none w =
      (missing_options (parse_name flag) ∷ [], refl, (λ h. absurd cc, λ h. absurd h))
  wrap_flag-errs flag (some opt) w = elim (Bool-cases (or_no_option opt).drop_flag) [
    | inl dropped ↦ ([], rw dropped (sym (append_nil w.errs)), (λ h. rw dropped refl, λ h. refl))
    | inr stays ↦ elim (Bool-cases (is_supported flag.flag_type)) [
      | inl known ↦ (
        [],
        rw (stays, known) (sym (append_nil w.errs)),
        (λ h. rw (stays, known) refl, λ h. refl),
      )
      | inr other ↦ (
        unsupported_type (parse_name flag) ∷ [],
        rw (stays, other) refl,
        (λ h. absurd cc, λ h. let g = rw (stays, other) at h in absurd cc),
      )
    ]
  ]

  wrap_flag-seen :
      (flag : Flag) (o : Option (Option K3sFlagOption)) (w : Wrapped) (k : String)
      → IsAccepted flag o
      → any (λ n. n =ₛ k) (wrap_flag set_value flag o w).seen
        ≡ ((parse_name flag =ₛ k) || any (λ n. n =ₛ k) w.seen)
  wrap_flag-seen flag none w k h = absurd h
  wrap_flag-seen flag (some opt) w k h = elim (Bool-cases (or_no_option opt).drop_flag) [
    | inl dropped ↦ rw dropped refl
    | inr stays ↦ rw stays refl
  ]

  wrap_flags-new_flags :
      (opts : K3sFlagSet) (flags : List Flag) (w : Wrapped)
      → (wrap_flags set_value opts flags w).new_flags ≡ w.new_flags ++ all_kept opts flags
  unfolding wrap_flags
  wrap_flags-new_flags opts [] w = sym (append_nil w.new_flags)
  wrap_flags-new_flags opts (flag ∷ flags) w =
      let o = lookup (parse_name flag) opts in
      wrap_flags-new_flags opts flags (wrap_flag set_value flag o w)
      ∙ rw (wrap_flag-new_flags flag o w)
          (append_assoc w.new_flags (kept flag o) (all_kept opts flags))

  wrap_flags-errs :
      (opts : K3sFlagSet) (flags : List Flag) (w : Wrapped)
      → (e : List FlagError) × ((wrap_flags set_value opts flags w).errs ≡ w.errs ++ e)
        × ((e ≡ []) ↔ All (λ flag. IsAccepted flag (lookup (parse_name flag) opts)) flags)
  unfolding wrap_flags
  wrap_flags-errs opts [] w = ([], sym (append_nil w.errs), (λ h. tt, λ h. refl))
  wrap_flags-errs opts (flag ∷ flags) w =
      let o = lookup (parse_name flag) opts in
      let first = wrap_flag-errs flag o w in
      let rest = wrap_flags-errs opts flags (wrap_flag set_value flag o w) in
      (
        first.0 ++ rest.0,
        rest.1 ∙ rw first.1 (append_assoc w.errs first.0 rest.0),
        (
          λ h. let n = append-eq-nil first.0 rest.0 h in (first.2.0 n.0, rest.2.0 n.1),
          λ h. rw (first.2.1 h.0, rest.2.1 h.1) refl,
        ),
      )

  -- Of accepted flags, every name has been seen.
  wrap_flags-seen :
      (opts : K3sFlagSet) (flags : List Flag) (w : Wrapped) (k : String)
      → All (λ flag. IsAccepted flag (lookup (parse_name flag) opts)) flags
      → any (λ n. n =ₛ k) (wrap_flags set_value opts flags w).seen
        ≡ (any (λ flag. parse_name flag =ₛ k) flags || any (λ n. n =ₛ k) w.seen)
  unfolding wrap_flags
  wrap_flags-seen opts [] w k h = refl
  wrap_flags-seen opts (flag ∷ flags) w k h =
      let o = lookup (parse_name flag) opts in
      wrap_flags-seen opts flags (wrap_flag set_value flag o w) k h.1
      ∙ rw (wrap_flag-seen flag o w k h.0) (
          or_swap (any (λ f. parse_name f =ₛ k) flags) (parse_name flag =ₛ k)
            (any (λ n. n =ₛ k) w.seen))

  -- From the start, the names that have been seen are those of the flags.
  seen-flags :
      (flags : List Flag) (opts : K3sFlagSet) (k : String)
      → All (λ flag. IsAccepted flag (lookup (parse_name flag) opts)) flags
      → any (λ n. n =ₛ k) (wrap_flags set_value opts flags nothing_seen).seen
        ≡ any (λ flag. parse_name flag =ₛ k) flags
  seen-flags flags opts k h =
      wrap_flags-seen opts flags nothing_seen k h
      ∙ or_false (any (λ flag. parse_name flag =ₛ k) flags)

  by_seen :
      (flags : List Flag) (opts : K3sFlagSet)
      → All (λ flag. IsAccepted flag (lookup (parse_name flag) opts)) flags
      → (l : K3sFlagSet)
      → All
          (λ e.
            (any (λ n. n =ₛ e.0) (wrap_flags set_value opts flags nothing_seen).seen
              || is_ignored e.1)
            ≡ true)
          l
        ↔ All (λ e. (any (λ flag. parse_name flag =ₛ e.0) flags || is_ignored e.1) ≡ true) l
  by_seen flags opts h [] = (λ seen. tt, λ seen. tt)
  by_seen flags opts h ((k, v) ∷ l) =
      let rest = by_seen flags opts h l in
      rw (seen-flags flags opts k h)
        (λ seen. (seen.0, rest.0 seen.1), λ seen. (seen.0, rest.1 seen.1))

  -- The flags of the wrapped command, by recursion.
  pub command_from_k3s-all_kept :
      (flags : List Flag) (opts : K3sFlagSet)
      → (command_from_k3s set_value flags opts).0 ≡ all_kept opts flags
  unfolding command_from_k3s
  command_from_k3s-all_kept flags opts = wrap_flags-new_flags opts flags nothing_seen

  -- A command is wrapped without an error exactly when every flag has options and is dropped or of a type
  -- that is known, and all options are those of a flag or to be ignored.
  pub command_from_k3s_iff :
      (flags : List Flag) (opts : K3sFlagSet)
      → ((command_from_k3s set_value flags opts).1 ≡ []) ↔ (
          All (λ flag. IsAccepted flag (lookup (parse_name flag) opts)) flags
          × All (λ e. (any (λ flag. parse_name flag =ₛ e.0) flags || is_ignored e.1) ≡ true) opts)
  unfolding command_from_k3s
  command_from_k3s_iff flags opts =
      let w0 = nothing_seen in
      let w = wrap_flags set_value opts flags w0 in
      let errs = wrap_flags-errs opts flags w0 in
      let unknown = unknown_flags_iff w.seen opts in
      (
        λ h.
            let n = append-eq-nil w.errs (unknown_flags w.seen opts) h in
            let accepted = errs.2.0 (sym errs.1 ∙ n.0) in
            (accepted, (by_seen flags opts accepted opts).0 (unknown.0 n.1)),
        λ h. rw (errs.1 ∙ errs.2.1 h.0, unknown.1 ((by_seen flags opts h.0 opts).1 h.1)) refl,
      )
