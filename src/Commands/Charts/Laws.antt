-- ===== src/Commands/Charts/Laws.antt =====
-- pkg/cli/cmds/server.go: exactly which charts are disabled.
use rke.Base.{
  any-append, or_false, Bool, true, false, not, ◌&&◌, ◌||◌, String, List, [], ◌∷◌, ◌≡◌, refl, sym,
  ap, ◌∙◌, ◌=ₛ◌, any, All, arith, eq_iff, Bool-cases, inl, inr,
}
use mathlib.Core.Path.{subst}
use rke.Base.Result.{Result, ok, err, ok-injective, err≢ok}
use rke.Base.Act.{Act, >>=-ok}
use rke.Commands.Charts.{
  Sets, is_text_in, insert_text, delete_text, chart, crd_chart, split_values, all_charts, re_enable,
  disable_all, disabling, disable_except_selected, set_flag,
}

-- The value has been set for --disable.
abbrev pub is_disabled : String → Sets → Bool
is_disabled c s = any (λ e. (e.0 =ₛ "disable") && (e.1 =ₛ c)) s

abbrev pub is_chart_of : String → String → Bool
is_chart_of c d = (chart d =ₛ c) || (crd_chart d =ₛ c)

abbrev pub selects : String → String → Bool
selects c d = not (d =ₛ "none") && is_chart_of c d

is_text_in-insert :
    (c x : String) (l : List String) → is_text_in c (insert_text x l) ≡ ((x =ₛ c) || is_text_in c l)
is_text_in-insert c x l = elim (Bool-cases (is_text_in x l)) [
  | inl there ↦ rw there (elim (Bool-cases (x =ₛ c)) [
    | inl same ↦
        let also = subst (λ z. is_text_in z l ≡ true) ((eq_iff x c).0 same) there in
        rw (same, also) refl
    | inr differ ↦ rw differ refl
  ])
  | inr new ↦ rw new refl
]

is_text_in-delete :
    (c x : String) (l : List String)
    → is_text_in c (delete_text x l) ≡ (is_text_in c l && not (x =ₛ c))
is_text_in-delete c x [] = refl
is_text_in-delete c x (y ∷ l) =
    let rest = is_text_in-delete c x l in ground (arith, eq_iff y x, eq_iff y c, eq_iff x c)

and_true : (t : Bool) → t ≡ (t && true)
and_true true = refl
and_true false = refl

and_shuffle : (t a b s : Bool) → (((t && not a) && not b) && not s) ≡ (t && not ((a || b) || s))
and_shuffle false a b s = refl
and_shuffle true true b s = refl
and_shuffle true false true s = refl
and_shuffle true false false s = refl

or_shuffle : (a b c e : Bool) → (a || (b || (c || e))) ≡ (((c || b) || a) || e)
or_shuffle true true true e = refl
or_shuffle true true false e = refl
or_shuffle true false true e = refl
or_shuffle true false false e = refl
or_shuffle false true true e = refl
or_shuffle false true false e = refl
or_shuffle false false true e = refl
or_shuffle false false false e = refl

is_disabled-all :
    (c : String) (charts : List String) (s : Sets)
    → is_disabled c (disable_all charts s) ≡ (is_disabled c s || is_text_in c charts)
is_disabled-all c [] s = ground arith
is_disabled-all c (x ∷ charts) s =
    is_disabled-all c charts (set_flag "disable" x s)
    ∙ rw (any-append (λ e. (e.0 =ₛ "disable") && (e.1 =ₛ c)) s (("disable", x) ∷ [])) (ground arith)

all_charts-is_chart_of :
    (c : String) (valid charts : List String)
    → is_text_in c (all_charts valid charts) ≡ (any (is_chart_of c) valid || is_text_in c charts)
all_charts-is_chart_of c [] charts = refl
all_charts-is_chart_of c (d ∷ valid) charts =
    let step = is_text_in-insert c (crd_chart d) (insert_text (chart d) charts) in
    let first = is_text_in-insert c (chart d) charts in
    all_charts-is_chart_of c valid (insert_text (crd_chart d) (insert_text (chart d) charts))
    ∙ rw (step, first)
        (or_shuffle (any (is_chart_of c) valid) (crd_chart d =ₛ c) (chart d =ₛ c)
          (is_text_in c charts))

-- A value is `none` or an item.
abbrev pub is_allowed : List String → String → Bool
is_allowed valid d = (d =ₛ "none") || is_text_in d valid

re_enable-ok :
    (c : String) (valid values charts end : List String)
    → re_enable valid values charts ≡ ok end
    → All (λ d. is_allowed valid d ≡ true) values
      × (is_text_in c end ≡ (is_text_in c charts && not (any (selects c) values)))
unfolding re_enable
re_enable-ok c valid [] charts end h =
    (tt, rw (sym (ok-injective h)) (and_true (is_text_in c charts)))
re_enable-ok c valid (d ∷ values) charts end h = elim (Bool-cases (d =ₛ "none")) [
  | inl skip ↦
      let rest = re_enable-ok c valid values charts end (rw skip at h) in
      ((rw skip refl, rest.0), rw skip rest.1)
  | inr item ↦ elim (Bool-cases (is_text_in d valid)) [
    | inl known ↦
        let less = delete_text (crd_chart d) (delete_text (chart d) charts) in
        let rest = re_enable-ok c valid values less end (rw (item, known) at h) in
        let step = is_text_in-delete c (crd_chart d) (delete_text (chart d) charts) in
        let first = is_text_in-delete c (chart d) charts in
        (
          (rw (item, known) refl, rest.0),
          rest.1
              ∙ rw (step, first, item)
                  (and_shuffle (is_text_in c charts) (chart d =ₛ c) (crd_chart d =ₛ c)
                    (any (selects c) values)),
        )
    | inr other ↦ absurd (err≢ok (rw (item, other) at h))
  ]
]

disabled-charts :
    (c : String) (valid values charts : List String) (s s' : Sets)
    → disabling (re_enable valid values charts) s ≡ (ok tt, s')
    → All (λ d. is_allowed valid d ≡ true) values
      × (is_disabled c s'
          ≡ (is_disabled c s || (is_text_in c charts && not (any (selects c) values))))
disabled-charts c valid values charts s s' h = from (re_enable valid values charts) refl h
  where
    from :
        (r : Result (List String))
        → re_enable valid values charts ≡ r
        → disabling r s ≡ (ok tt, s')
        → All (λ d. is_allowed valid d ≡ true) values
          × (is_disabled c s'
              ≡ (is_disabled c s || (is_text_in c charts && not (any (selects c) values))))
    from (err x) e h = absurd (err≢ok (ap (λ p. p.0) h))
    from (ok end) e h =
        let left = re_enable-ok c valid values charts end e in
        (
          left.0,
          ap (is_disabled c) (sym (ap (λ p. p.1) h))
              ∙ is_disabled-all c end s
              ∙ ap (λ b. is_disabled c s || b) left.1,
        )

-- If disableExceptSelected does not fail, the flag's values, split at commas, have been accepted, each
-- one that is left is `none` or an item, and these are disabled: what was before, and the charts of all
-- items but those whose chart is one of a value other than `none`. A value `none` takes back no other
-- value: an item that is given beside it stays enabled.
pub disable_except_selected-charts :
    (valid flag_values : List String) (validate : List String → Act Sets (List String))
    (s s' : Sets) (c : String)
    → disable_except_selected valid flag_values validate s ≡ (ok tt, s')
    → (values : List String) × (t : Sets) × (validate (split_values flag_values) s ≡ (ok values, t))
      × All (λ d. is_allowed valid d ≡ true) values
      × (is_disabled c s'
          ≡ (is_disabled c t || (any (is_chart_of c) valid && not (any (selects c) values))))
unfolding disable_except_selected
disable_except_selected-charts valid flag_values validate s s' c h =
    let parts =
      >>=-ok (validate (split_values flag_values))
        (λ values. disabling (re_enable valid values (all_charts valid []))) s h in
    let left = disabled-charts c valid parts.0 (all_charts valid []) parts.1 s' parts.3 in
    (
      parts.0,
      parts.1,
      parts.2,
      left.0,
      left.1
          ∙ ap (λ b. is_disabled c parts.1 || (b && not (any (selects c) parts.0)))
              (all_charts-is_chart_of c valid [] ∙ or_false (any (is_chart_of c) valid)),
    )
