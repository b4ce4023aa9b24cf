-- ===== src/Podtemplate/Assignment.antt =====
-- pkg/podtemplate/config.go: the loops over comma-separated `name=value` settings.
pub mod Laws
pub mod Targets
pub mod Accepted
use rke.Base.{
  ℕ, String, ◌<>◌, Option, none, some, List, [], ◌∷◌, Bool, true, false, if◌then◌else◌, ◌||◌, not,
}
use rke.Base.Decimal.{ℤ, pos, negsuc, parse_int}
use rke.Base.Dict.{Dict, insert}
use rke.Base.Result.{Error, Result, ok, err, message, ◌>>=◌}
use rke.Base.Text.{split, cut}

-- `word` is "request" or "limit": the two loops of the source differ only there.
abbrev pub put_request :
    String → String → Option (String × String) → Dict String → Result (Dict String)
put_request word raw none d =
    err (
      message
        ("incorrectly formatted control plane resource " <> (word <> (" specified: " <> raw))))
put_request word raw (some (name, value)) d = ok (insert (name <> ("-" <> word)) value d)

-- The inner loop over the settings of one flag value, and the outer one over the flag's values.
unfoldable pub put_requests : String → List String → Dict String → Result (Dict String)
unfolding insert cut
put_requests word [] d = ok d
put_requests word (raw ∷ rest) d = do
  d' ← put_request word raw (cut b'=' raw) d
  put_requests word rest d'

unfoldable pub put_all_requests : String → List String → Dict String → Result (Dict String)
unfolding put_requests split
put_all_requests word [] d = ok d
put_all_requests word (value ∷ values) d = do
  d' ← put_requests word (split b',' value) d
  put_all_requests word values d'

abbrev pub invalid_value : String → Result (Dict ℕ)
invalid_value raw = err (message ("invalid control plane probe config value specified: " <> raw))

abbrev pub put_number : String → String → Option ℤ → Dict ℕ → Result (Dict ℕ)
put_number raw name none d = invalid_value raw
put_number raw name (some (negsuc n)) d = invalid_value raw
put_number raw name (some (pos n)) d = ok (insert name n d)

abbrev pub put_probe_conf : String → Option (String × String) → Dict ℕ → Result (Dict ℕ)
put_probe_conf raw none d =
    err (message ("incorrectly formatted control probe config specified: " <> raw))
put_probe_conf raw (some (name, value)) d = put_number raw name (parse_int 32 value) d

unfoldable pub put_probe_confs : List String → Dict ℕ → Result (Dict ℕ)
unfolding insert cut parse_int
put_probe_confs [] d = ok d
put_probe_confs (raw ∷ rest) d = do
  d' ← put_probe_conf raw (cut b'=' raw) d
  put_probe_confs rest d'

unfoldable pub put_all_probe_confs : List String → Dict ℕ → Result (Dict ℕ)
unfolding put_probe_confs split
put_all_probe_confs [] d = ok d
put_all_probe_confs (value ∷ values) d = do
  d' ← put_probe_confs (split b',' value) d
  put_all_probe_confs values d'
