-- ===== src/Commands/Charts.antt =====
-- pkg/cli/cmds/server.go: which CNI charts are disabled. The state is the list of the calls of clx.Set
-- that have been made; a fatal log entry is an error.
pub mod Laws
use rke.Base.{
  Bool, true, false, not, ◌&&◌, ◌||◌, String, ◌<>◌, List, [], ◌∷◌, ◌++◌, ◌=ₛ◌, if◌then◌else◌, any,
}
use rke.Base.Result.{Result, ok, err, Error, message}
use rke.Base.Act.{Act, pure, raise, ◌>>=◌, ◌>>◌}
use rke.Base.Text.{split}

-- The calls clx.Set(name, value), in their order.
abbrev pub Sets : Type 0
Sets = List (String × String)

abbrev pub set_flag : String → String → Sets → Sets
set_flag name value s = s ++ ((name, value) ∷ [])

abbrev pub is_text_in : String → List String → Bool
is_text_in c l = any (λ d. d =ₛ c) l

-- Sets of texts: insertion, deletion.
abbrev pub insert_text : String → List String → List String
insert_text x l = if is_text_in x l then l else x ∷ l

abbrev pub delete_text : String → List String → List String
delete_text x [] = []
delete_text x (y ∷ l) = let rest = delete_text x l in if y =ₛ x then rest else y ∷ rest

abbrev pub chart : String → String
chart d = "rke2-" <> d

abbrev pub crd_chart : String → String
crd_chart d = "rke2-" <> (d <> "-crd")

abbrev pub split_values : List String → List String
split_values [] = []
split_values (v ∷ vs) = split b',' v ++ split_values vs

abbrev pub all_charts : List String → List String → List String
all_charts [] charts = charts
all_charts (d ∷ valid) charts =
    all_charts valid (insert_text (crd_chart d) (insert_text (chart d) charts))

abbrev pub invalid : String → Error
invalid d = message ("Invalid value " <> d)

-- The charts that are left when those of the selected values are taken out.
unfoldable pub re_enable : List String → List String → List String → Result (List String)
re_enable valid [] charts = ok charts
re_enable valid (d ∷ values) charts =
    let same = re_enable valid values charts in
    let less = re_enable valid values (delete_text (crd_chart d) (delete_text (chart d) charts)) in
    if d =ₛ "none" then same else if is_text_in d valid then less else err (invalid d)

abbrev pub disable_all : List String → Sets → Sets
disable_all [] s = s
disable_all (c ∷ charts) s = disable_all charts (set_flag "disable" c s)

abbrev pub disabling : Result (List String) → Act Sets (Unit {0})
disabling (err e) s = (err e, s)
disabling (ok charts) s = (ok tt, disable_all charts s)

-- The values of the flag, and the function that checks them, are arguments.
unfoldable pub disable_except_selected :
    List String → List String → (List String → Act Sets (List String)) → Act Sets (Unit {0})
unfolding re_enable split
disable_except_selected valid flag_values validate =
    validate (split_values flag_values) >>= λ values.
    disabling (re_enable valid values (all_charts valid []))

abbrev pub check_single : String → List String → Act Sets (List String)
check_single first values s =
    if first =ₛ "multus"
    then (err (message "multus must be used alongside another primary cni selection"), s)
    else (ok values, set_flag "disable" "rke2-multus" s)

abbrev pub check_pair : String → List String → Act Sets (List String)
check_pair first rest s =
    if first =ₛ "multus"
    then (ok rest, s)
    else (err (message "may only provide multiple values if multus is the first value"), s)

unfoldable pub check_cni : List String → Act Sets (List String)
check_cni [] = check_single "canal" ("canal" ∷ [])
check_cni (a ∷ []) = check_single a (a ∷ [])
check_cni (a ∷ b ∷ []) = check_pair a (b ∷ [])
check_cni (a ∷ b ∷ c ∷ rest) = raise (message "must specify 1 or 2 values")

abbrev pub cni_items : List String
cni_items = "calico" ∷ "canal" ∷ "cilium" ∷ "flannel" ∷ []

unfoldable pub validate_cni : List String → Act Sets (Unit {0})
unfolding disable_except_selected check_cni
validate_cni flag_values = disable_except_selected cni_items flag_values check_cni
