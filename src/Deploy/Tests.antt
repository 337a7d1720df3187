-- ===== src/Deploy/Tests.antt =====
-- Two bundles in a world that is the log of the calls.
use arlon.Prelude.{
  String, ◌<>◌, ◌≡◌, refl, true, false, none, some, List, [], ◌∷◌, ◌++◌, string_eq, ◌==◌,
  if◌then◌else◌,
}
use arlon.Go.Exec.{Result, ok, err}
use arlon.Bundles.{Bundle, Secrets, Source, bundle_of, secret_of, dynamic_secret}
use arlon.Go.Path.{join}
use arlon.Go.Strings.{split}
use arlon.Go.Map.{StringMap, lookup}
use arlon.Deploy.Patches.{Encoder, create_patch_dir}
use arlon.Git.{
  find_creds, get_repo_creds_from_argocd, RepoCreds, Git, clone_repo, commit_changes, add_all,
  is_broken, publish,
}
use arlon.Profiles.{Profile, overrides_of}
use arlon.Deploy.{
  AppSettings, app_settings, write_static, write_app, process_bundles, remove_old, open_tree,
  deploy_to_git,
}
use arlon.Deploy.Laws.{have_one_kind, is_ok, process_bundles-have_one_kind, app_settings-secret_of}

abbrev git : Git
git = record {
  World = List String;
  mkdir_temp = λ w. (ok "/tmp/arlon-1", w);
  plain_clone = λ dir url branch username password w. (ok tt, w);
  remove_all = λ dir w. w;
  worktree = λ w. ok tt;
  status = λ w. ok (record { file = "new"; deleted = false } ∷ []);
  is_symlink = λ file w. ok false;
  is_missing = λ file w. false;
  add = λ file w. w ++ ("add " <> file) ∷ [];
  commit = λ message w. (ok tt, w ++ ("commit " <> message) ∷ []);
  push = λ creds w. (ok tt, w ++ "push" ∷ []);
  read_dir = λ dir w. ok [];
  lstat = λ file w. ok (record { name = file; is_dir = true });
  remove = λ file w. (ok tt, w ++ ("remove " <> file) ∷ []);
  mkdir_all = λ file w. (ok tt, w);
  create = λ file w. (ok tt, w);
  open_truncated = λ file w. (ok tt, w);
  write = λ file text w. (ok tt, w ++ text ∷ []);
}

abbrev render : AppSettings → Result String
render settings = ok (settings.app_name <> ("@" <> settings.repo_revision))

abbrev calico : Bundle
calico = record {
  name = "calico";
  contents = some "kind: ConfigMap";
  repo_url = "";
  repo_path = "";
  repo_revision = "";
  src_type = "";
}

abbrev ingress : Bundle
ingress = record {
  name = "ingress";
  contents = none;
  repo_url = "https://git";
  repo_path = "ingress";
  repo_revision = "v2";
  src_type = "helm";
}

abbrev both : Bundle
both = record ingress { contents = some "x" }

process_bundles-have_one_kind_example :
    is_ok
      (process_bundles git render "c1" "https://git" "c1/mgmt" "c1/workload"
        (λ _. [])
        (calico ∷ both ∷ [])
        []).0
    ≡ have_one_kind (calico ∷ both ∷ [])
process_bundles-have_one_kind_example =
    process_bundles-have_one_kind git render
      (
        λ path w. refl,
        λ path w. refl,
        λ path text w. refl,
        λ settings. (settings.app_name <> ("@" <> settings.repo_revision), refl),
      )
      "c1" "https://git" "c1/mgmt" "c1/workload" (λ _. []) (calico ∷ both ∷ []) []

two_kinds : have_one_kind (calico ∷ both ∷ []) ≡ false
unfolding string_eq
two_kinds = refl

written :
    process_bundles git render "c1" "https://git" "c1/mgmt" "c1/workload"
      (λ _. [])
      (calico ∷ ingress ∷ [])
      []
    ≡ (ok tt, "kind: ConfigMap" ∷ "c1-calico@HEAD" ∷ "c1-ingress@v2" ∷ [])
unfolding process_bundles app_settings write_static write_app string_eq
written = refl

abbrev secrets : Secrets
secrets = record {
  World = Unit {0};
  get = λ name w. err "not found";
  list = λ w. ok [];
  create = λ secr w. (ok tt, w);
  update = λ secr w. (ok tt, w);
  delete = λ name w. (ok tt, w);
  is_not_found = λ e. true;
  read_file = λ file w. ok "kind: ConfigMap";
  matches_rfc1123 = λ name. true;
}

abbrev source : Source
source = record {
  from_file = "";
  repo_url = "https://git";
  repo_path = "ingress";
  repo_revision = "v2";
  src_type = "helm";
  description = "";
  tags = "";
}

ingress_secret : secret_of secrets "ingress" source tt ≡ ok (dynamic_secret "ingress" source)
unfolding secret_of string_eq
ingress_secret = refl

app_settings-secret_of_example :
    (s : AppSettings) × (app_settings "c1" "https://clusters" "c1/workload"
        (λ _. [])
        (bundle_of "ingress" (dynamic_secret "ingress" source))
      ≡ ok s)
    × (s.repo_url ≡ (if source.repo_url == "" then "https://clusters" else source.repo_url))
app_settings-secret_of_example =
    app_settings-secret_of secrets "ingress" source tt (dynamic_secret "ingress" source)
      ingress_secret "c1" "https://clusters" "c1/workload" (λ _. [])

abbrev creds : RepoCreds
creds = record { url = "https://git"; username = "u"; password = "p" }

abbrev profile : Profile
profile = record {
  name = "dev";
  description = "";
  tags = [];
  bundles = "ingress" ∷ [];
  overrides = [];
  repo_url = "";
  repo_path = "profiles";
  repo_revision = "";
}

deployed :
    deploy_to_git git render
      (λ path w. (ok tt, w ++ "charts" ∷ []))
      render
      creds
      "argocd"
      (ingress ∷ [])
      "c1"
      "https://git"
      "main"
      "clusters"
      profile
      []
    ≡ (
      ok tt,
      "remove clusters/c1" ∷ "charts" ∷ "c1-ingress@v2" ∷ "add new"
          ∷ "commit deploy arlon cluster clusters/c1" ∷ "push" ∷ [],
    )
unfolding deploy_to_git open_tree remove_old clone_repo process_bundles app_settings write_static
    write_app string_eq publish commit_changes add_all is_broken overrides_of join split
deployed = refl

abbrev encoder : Encoder
encoder = record {
  marshal = λ k. ok "kind: Kustomization";
  parse = λ text. ok tt;
  execute = λ text. ok text;
}

abbrev listed : List String → Result (List StringMap)
listed w = ok ((("url", "https://git") ∷ ("username", "u") ∷ ("password", "p") ∷ []) ∷ [])

found_creds : get_repo_creds_from_argocd (listed []) "https://git" ≡ ok creds
unfolding get_repo_creds_from_argocd find_creds lookup string_eq
found_creds = refl

patched : List String
patched =
    (create_patch_dir git encoder (λ w. ok tt) listed "c1" "https://git" "clusters" "main" "v1"
      "patch" "https://base" "base" []).1
