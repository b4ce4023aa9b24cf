-- ===== src/Tests/ChartRuns.antt =====
-- The charts of pkg/bootstrap and the arguments of pkg/logging, at concrete inputs.
use Prim.Native.Nat.{zero, suc}
use rke.Base.{
  ℕ, map, false, true, String, Option, none, some, List, [], ◌∷◌, ◌++◌, ◌≡◌, ◌≢◌, refl, ap, ◌∙◌,
  ◌=ₛ◌, if◌then◌else◌, eq_refl, eq_iff, inl, inr, Bool-cases,
}
use mathlib.Core.Path.{subst}
use rke.Base.Dict.{Dict, lookup, insert, lookup-insert}
use rke.Base.Os.{regular}
use rke.Base.Result.{Result, ok, ok-injective}
use rke.Bootstrap.Charts.{
  Unstructured, ManifestFiles, Object, helm_chart, update_objects, rewrite_chart,
}
use rke.Bootstrap.Charts.Laws.{IsNested}
use rke.Bootstrap.Charts.Settled.{IsOrderOf, rewrite_chart-settled}
use rke.Base.Text.{contains_char, has_prefix}
use rke.Logging.{FlagSet, extract_from_args, stderr, logger, reset, writer}
use rke.Logging.Laws.{Argument, written, extract_from_args-written}

abbrev or_empty : Option String → String
or_empty none = ""
or_empty (some v) = v

-- An object is its annotations and its spec.set.
abbrev objects : Unstructured
objects = record {
  Content = Dict String × Dict String;
  annotations = λ c. c.0;
  nested_string = λ k c. ok (or_empty (lookup k (c.1)));
  set_nested_field = λ k v c. ok (c.0, insert k v (c.1));
}

found_key : (k v : String) (d : Dict String) → lookup k (insert k v d) ≡ some v
found_key k v d = lookup-insert k k v d ∙ rw (eq_refl k) refl

kept_key : (k j v : String) (d : Dict String) → k ≢ j → lookup j (insert k v d) ≡ lookup j d
kept_key k j v d differ = elim (Bool-cases (k =ₛ j)) [
  | inl same ↦ absurd (differ ((eq_iff k j).0 same))
  | inr other ↦ lookup-insert k j v d ∙ rw other refl
]

same_key :
    (k v : String) (c c' : Dict String × Dict String)
    → objects.set_nested_field k v c ≡ ok c'
    → objects.nested_string k c' ≡ ok v
same_key k v c c' h =
    subst (λ x. objects.nested_string k x ≡ ok v) (ok-injective h)
      (ap (λ o. ok (or_empty o)) (found_key k v (c.1)))

other_key :
    (k j v : String) (c c' : Dict String × Dict String)
    → k ≢ j
    → objects.set_nested_field k v c ≡ ok c'
    → objects.nested_string j c' ≡ objects.nested_string j c
other_key k j v c c' differ h =
    subst (λ x. objects.nested_string j x ≡ objects.nested_string j c) (ok-injective h)
      (ap (λ o. ok (or_empty o)) (kept_key k j v (c.1) differ))

objects-IsNested : IsNested objects
objects-IsNested = record { set_same = same_key; set_other = other_key }

abbrev values : Dict String
values = ("global.clusterCIDR", "10.42.0.0/16") ∷ ("global.clusterDNS", "10.43.0.10") ∷ []

abbrev injected : Dict String × Dict String
injected = (
  ("rke2.cattle.io/inject-cluster-config", "true") ∷ [],
  ("global.clusterDNS", "10.43.0.10") ∷ [],
)

abbrev finished : Dict String × Dict String
finished = (
  ("rke2.cattle.io/inject-cluster-config", "true") ∷ [],
  ("global.clusterDNS", "10.43.0.10") ∷ ("global.clusterCIDR", "10.42.0.0/16") ∷ [],
)

updated_test :
    update_objects objects "" (λ n. values) (helm_chart injected ∷ helm_chart ([], []) ∷ [])
    ≡ (true, helm_chart finished ∷ helm_chart ([], []) ∷ [])
unfolding update_objects lookup insert
updated_test = refl

-- The state counts the calls that write; every file holds the same objects.
abbrev manifests : ManifestFiles
manifests = record {
  State = List String;
  walk = λ dir s. ok (("/m/a.yaml", regular) ∷ ("/m/b.txt", regular) ∷ []);
  open_file = λ file s. (ok "text", s);
  seek = λ file s. (ok tt, s);
  truncate = λ file s. (ok tt, s);
  write = λ file text s. (ok tt, s ++ (file ∷ []));
  sync = λ file s. (ok tt, s);
}

abbrev decoded : String → Result (List (Object objects ""))
decoded text = ok (helm_chart finished ∷ [])

-- The manifest was changed in one order of the values, and is looked at in another one.
abbrev reversed : Dict String
reversed = ("global.clusterDNS", "10.43.0.10") ∷ ("global.clusterCIDR", "10.42.0.0/16") ∷ []

same_map : (k : String) → lookup k reversed ≡ lookup k values
unfolding lookup
same_map k = elim (Bool-cases ("global.clusterCIDR" =ₛ k)) [
  | inl same ↦
      subst (λ j. lookup j reversed ≡ lookup j values) ((eq_iff "global.clusterCIDR" k).0 same) refl
  | inr other ↦ rw other refl
]

abbrev orders : ℕ → Dict String
orders zero = reversed
orders (suc n) = values

are_orders : (n : ℕ) → IsOrderOf objects "" objects-IsNested values (orders n)
unfolding lookup
are_orders zero = ((refl, (refl, tt)), same_map)
are_orders (suc n) = ((refl, (refl, tt)), λ k. refl)

rewrite_chart-settled_example :
    rewrite_chart objects "" decoded (λ objs. ok "text") manifests "/m/a.yaml" orders []
    ≡ (ok tt, [])
unfolding lookup update_objects insert
rewrite_chart-settled_example =
    rewrite_chart-settled objects "" objects-IsNested decoded (λ objs. ok "text") manifests
      "/m/a.yaml" "text" values orders (helm_chart finished ∷ []) [] [] are_orders
      (inr (inl (values, helm_chart injected, ((refl, (refl, tt)), λ k. refl), refl)), tt) refl refl

-- The flags of klog, with those that have been set.
abbrev flag_set : FlagSet
flag_set = record {
  State = Dict String;
  lookup_flag = λ name.
      if name =ₛ "log-file" then some "" else if name =ₛ "logtostderr" then some "true" else none;
  set_flag = insert;
  set_value = insert;
  get_bool = λ name s. or_empty (lookup name s) =ₛ "true";
  get_string = λ name s. or_empty (lookup name s);
  get_uint64 = λ name s. 50;
}

arguments_test :
    extract_from_args flag_set [] ("v=6" ∷ "--logtostderr" ∷ "anonymous-auth" ∷ []) []
    ≡ ("v=6" ∷ "anonymous-auth" ∷ [], stderr)
unfolding extract_from_args lookup insert
arguments_test = refl

abbrev given : List Argument
given =
    record { dashed = false; name = "v"; value = some "6" }
    ∷ record { dashed = true; name = "log-file"; value = some "/l=1" }
    ∷ record { dashed = true; name = "logtostderr"; value = none }
    ∷ record { dashed = true; name = "--x"; value = none }
    ∷ []

given_test : map written given ≡ "v=6" ∷ "--log-file=/l=1" ∷ "--logtostderr" ∷ "----x" ∷ []
given_test = refl

extract_from_args-written_example :
    extract_from_args flag_set [] (map written given) [] ≡ ("v=6" ∷ "----x" ∷ [], logger "/l=1" 50)
unfolding reset writer contains_char has_prefix lookup insert
extract_from_args-written_example =
    extract_from_args-written flag_set [] given []
      ((refl, inr refl), ((refl, inl refl), ((refl, inl refl), ((refl, inl refl), tt))))
