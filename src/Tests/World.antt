-- ===== src/Tests/World.antt =====
-- A machine whose files are a dictionary, and image names with two registries, to run the program on.
use rke.Base.{String, ◌<>◌, Option, none, some, List, ◌≡◌, refl, false, if◌then◌else◌, ◌=ₛ◌}
use rke.Base.Dict.{Dict, lookup, insert, erase}
use rke.Base.Os.{Os, DirEntry, FileKind, regular, directory}
use rke.Base.Result.{Result, ok, err, not_exist, exist, external}
use rke.Base.Text.{contains_char}
use rke.Images.Names.{Names, IsLawful}

pub data Host : Type 0 where
  docker corp : Host

abbrev pub host_name : Host → String
host_name docker = "index.docker.io"
host_name corp = "registry.corp"

pub record Ref : Type 0 where
  pub host : Host
  pub path : String

abbrev ref_name : Ref → String
ref_name r = host_name r.host <> ("/" <> r.path)

abbrev new_host : String → Result Host
new_host s =
    if s =ₛ "index.docker.io"
    then ok docker
    else if s =ₛ "registry.corp"
    then ok corp
    else err (external "no registry")

abbrev pub names : Names
names = record {
  Registry = Host;
  Tag = Ref;
  Digest = Ref;
  Reference = Ref;
  default_registry = "index.docker.io";
  new_registry = new_host;
  registry_name = host_name;
  parse_reference = λ s. ok (record { host = docker; path = s });
  ref_name = ref_name;
  registry_str = λ r. host_name r.host;
  as_tag = λ r. some r;
  as_digest = λ r. none;
  tag_ref = λ t. t;
  digest_ref = λ d. d;
  tag_with_registry = λ h t. record t { host = h };
  digest_with_registry = λ h d. record d { host = h };
}

names_no_path : (h : Host) → contains_char b'/' (host_name h) ≡ false
unfolding contains_char
names_no_path docker = refl
names_no_path corp = refl

names_same : (h : Host) → new_host (host_name h) ≡ ok h
names_same docker = refl
names_same corp = refl

pub names-IsLawful : IsLawful names
names-IsLawful = record {
  no_path = names_no_path;
  same_registry = names_same;
  tag_or_digest = λ r h. absurd cc;
  tag_registry = λ r t. refl;
  digest_registry = λ r d. refl;
}

abbrev pub Disk : Type 0
Disk = Dict (FileKind × String)

abbrev kind_of : Option (FileKind × String) → Result FileKind
kind_of none = err not_exist
kind_of (some (k, text)) = ok k

abbrev text_of : Option (FileKind × String) → Result String
text_of none = err not_exist
text_of (some (k, text)) = ok text

abbrev create : String → Option (FileKind × String) → Disk → Result (Unit {0}) × Disk
create path none s = (ok tt, insert path (regular, "") s)
create path (some f) s = (err exist, s)

abbrev move : String → String → Option (FileKind × String) → Disk → Result (Unit {0}) × Disk
move from to none s = (err not_exist, s)
move from to (some f) s = (ok tt, insert to f (erase from s))

abbrev delete : String → Option (FileKind × String) → Disk → Result (Unit {0}) × Disk
delete path none s = (err not_exist, s)
delete path (some f) s = (ok tt, erase path s)

-- Every directory lists the same entries.
abbrev pub machine : List DirEntry → Os
machine entries = record {
  State = Disk;
  stat = λ path s. kind_of (lookup path s);
  read_dir = λ path s. ok entries;
  read_file = λ path s. text_of (lookup path s);
  mkdir_all = λ path perm s. (ok tt, insert path (directory, "") s);
  write_file = λ path text perm s. (ok tt, insert path (regular, text) s);
  create_new = λ path perm s. create path (lookup path s) s;
  write_open = λ path text s. (ok tt, insert path (regular, text) s);
  remove = λ path s. delete path (lookup path s) s;
  remove_all = λ path s. (ok tt, erase path s);
  rename = λ from to s. move from to (lookup from s) s;
  mkdir_temp = λ parent pattern s. (
    ok (parent <> ("/" <> (pattern <> "1"))),
    insert (parent <> ("/" <> (pattern <> "1"))) (directory, "") s,
  );
}

abbrev pub file : String → FileKind × String
file text = (regular, text)
