-- ===== src/Tests/EtcdRuns.antt =====
-- The method of pkg/executor/staticpod that starts etcd, at a concrete input.
use rke.Base.{true, Option, some, [], ◌∷◌}
use rke.Base.Result.{Result, ok}
use rke.Images.Resolver.{source_defaults}
use rke.Podtemplate.Probes.{no_confs}
use rke.Podtemplate.Spec.{Spec, plain_spec}
use rke.Staticpod.Etcd.{Trust, User, Owners, EtcdArgs, etcd}
use rke.Tests.World.{names, docker, machine, Disk}
use rke.Tests.ServerRuns.{executor}

abbrev trust : Trust
trust = record {
  cert_file = "/tls/c.crt";
  key_file = "/tls/c.key";
  trusted_ca_file = "/tls/ca.crt";
}

abbrev arguments : EtcdArgs (machine [])
arguments = record {
  initial_options = ok "{}";
  to_config_file = λ extra s. (ok "/d/config", s);
  data_dir = "/d/db";
  server_trust = trust;
  peer_trust = trust;
}

abbrev owners : Owners (machine [])
owners = record { walk = λ path s. (path, ok tt) ∷ []; chown = λ path uid gid s. (ok tt, s) }

abbrev etcd_user : Result User
etcd_user = ok (record { uid = "52034"; gid = "52034" })

abbrev started : Result (Option (Spec names)) × Disk
started =
    etcd (machine []) executor (source_defaults "index.docker.io") owners etcd_user true
      (some arguments) [] []

abbrev spec_or : Spec names → Result (Option (Spec names)) → Spec names
spec_or other (ok (some spec)) = spec
spec_or other _ = other

abbrev etcd_spec : Spec names
etcd_spec =
    spec_or (plain_spec names "" [] (record { host = docker; path = "" }) no_confs) (started.0)
