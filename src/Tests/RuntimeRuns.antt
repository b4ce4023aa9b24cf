-- ===== src/Tests/RuntimeRuns.antt =====
-- pkg/bootstrap/bootstrap.go, the runtime image's name and its search, at concrete inputs.
use rke.Base.{String, ◌<>◌, Option, none, some, [], not, ◌=ₛ◌, ◌≡◌, refl}
use rke.Base.Os.{directory}
use rke.Base.Result.{Error, external}
use rke.Bootstrap.{is_candidate}
use rke.Bootstrap.Runtime.{Library, release_ref_digest, preload_bootstrap_from_runtime, search_refs}
use rke.Bootstrap.Runtime.Laws.{
  release_ref_digest-is_candidate, preload_bootstrap_from_runtime-no_image, unresolved,
}
use rke.Images.Resolver
use rke.Images.Resolver.{Resolver, source_defaults}
use rke.Tests.World.{names, docker, corp, Ref}

-- A machine that is the one image it has, if any.
abbrev image_of : Option String → Option String × Option Error
image_of none = (none, some (external "no tarball"))
image_of (some image) = (some image, none)

abbrev library : Library names (Option String)
library = record {
  tag_str = λ t. t.path;
  digest_str = λ d. d.path;
  ref_string = λ r. r.path;
  ref_registry = λ r. r.host;
  hex_sha256 = λ s. "0123456789abcdef" <> s;
  Image = String;
  find_image = λ dir ref s. image_of s;
}

abbrev defaults : Resolver.Defaults
defaults = source_defaults "index.docker.io"

abbrev resolver : Resolver names
resolver = record { registry = corp; repo_path = ""; overrides = [] }

abbrev tagged : Ref
tagged = record { host = docker; path = "v1.3" }

release_ref_digest-is_candidate_example :
    is_candidate "v1.2" (record { name = "v1.3-0123456789ab"; kind = directory })
    ≡ not ("v1.3-0123456789ab" =ₛ "v1.2")
unfolding release_ref_digest
release_ref_digest-is_candidate_example =
    release_ref_digest-is_candidate names library tagged "v1.3-0123456789ab" "v1.2" refl refl

found :
    preload_bootstrap_from_runtime names library "/images" defaults resolver (some "runtime")
    ≡ (some "runtime", none)
unfolding preload_bootstrap_from_runtime
found = refl

preload_bootstrap_from_runtime-no_image_example :
    preload_bootstrap_from_runtime names library "/images" defaults resolver none
    ≡ (none, unresolved (search_refs names library defaults resolver))
unfolding preload_bootstrap_from_runtime
preload_bootstrap_from_runtime-no_image_example =
    preload_bootstrap_from_runtime-no_image names library "/images" defaults resolver none refl
