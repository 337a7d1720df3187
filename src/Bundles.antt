-- ===== src/Bundles.antt =====
-- pkg/bundle: the configuration bundles, which are secrets in Arlon's namespace. A static bundle
-- holds a manifest, a dynamic one a reference to a directory in git.
pub mod Laws
mod Updates
mod Tests
use Prim.Native.String.{len}
use arlon.Prelude.{
  ℕ, String, ◌<>◌, Bool, true, false, not, ◌&&◌, ◌||◌, Option, none, some, List, [], ◌∷◌, map, eqb,
  ltb, ◌==◌, string_eq, if◌then◌else◌,
}
use arlon.Go.Exec.{nil_map, Result, ok, err, Exec, pure, ◌>>=◌, ◌>>◌, ◌>>=ᵣ◌, wrap, reads, wrapped}
use arlon.Go.Map.{StringMap, insert, lookup, read}

-- A Kubernetes secret, with the fields that the code uses.
pub record Secret : Type 0 where
  pub name : String
  pub labels : StringMap
  pub annotations : StringMap
  pub contents : StringMap

-- The secrets of a namespace, the files, and the regular expression of RFC 1123 names.
-- `list` selects the bundles.
pub record Secrets : Type 1 where
  pub World : Type 0
  pub get : String → World → Result Secret
  pub list : World → Result (List Secret)
  pub create : Secret → Exec World (Unit {0})
  pub update : Secret → Exec World (Unit {0})
  pub delete : String → Exec World (Unit {0})
  pub is_not_found : String → Bool
  pub read_file : String → World → Result String
  pub matches_rfc1123 : String → Bool

-- The contents are nil (`none`) in a dynamic bundle.
pub record Bundle : Type 0 where
  pub name : String
  pub contents : Option String
  pub repo_url : String
  pub repo_path : String
  pub repo_revision : String
  pub src_type : String

pub record ListItem : Type 0 where
  pub name : String
  pub type : String
  pub tags : String
  pub repo : String
  pub path : String
  pub revision : String
  pub src_type : String
  pub description : String

-- The arguments of `create` beside the name.
pub record Source : Type 0 where
  pub from_file : String
  pub repo_url : String
  pub repo_path : String
  pub repo_revision : String
  pub src_type : String
  pub description : String
  pub tags : String

abbrev max_len_rfc1123 : ℕ
max_len_rfc1123 = 63

abbrev pub bundle_of : String → Secret → Bundle
bundle_of name secr = record {
  name = name;
  contents = lookup "data" secr.contents;
  repo_url = read secr.annotations "arlon.io/repo-url";
  repo_path = read secr.annotations "arlon.io/repo-path";
  repo_revision = read secr.annotations "arlon.io/repo-revision";
  src_type = read secr.annotations "arlon.io/srctype";
}

unfoldable pub list_item : Secret → ListItem
list_item secr =
    let label = read secr.labels "bundle-type" in
    let type = if label == "" then "(undefined)" else label in
    record {
      name = secr.name;
      type = type;
      tags = read secr.contents "tags";
      repo = if type == "dynamic" then read secr.annotations "arlon.io/repo-url" else "(N/A)";
      path = if type == "dynamic" then read secr.annotations "arlon.io/repo-path" else "(N/A)";
      revision = read secr.annotations "arlon.io/repo-revision";
      src_type = read secr.annotations "arlon.io/srctype";
      description = read secr.contents "description";
    }

-- The secret that `create` starts from.
abbrev pub new_secret : String → Source → Secret
new_secret name src = record {
  name = name;
  labels = ("managed-by", "arlon") ∷ ("arlon-type", "config-bundle") ∷ [];
  annotations = [];
  contents = ("description", src.description) ∷ ("tags", src.tags) ∷ [];
}

unfoldable pub static_secret : String → Source → String → Secret
static_secret name src contents =
    let secr = new_secret name src in
    record secr {
      labels = insert "bundle-type" "static" secr.labels;
      contents = insert "data" contents secr.contents;
    }

unfoldable pub dynamic_secret : String → Source → Secret
dynamic_secret name src =
    let secr = new_secret name src in
    record secr {
      labels = insert "bundle-type" "dynamic" secr.labels;
      annotations = insert "arlon.io/srctype" src.src_type (
          insert "arlon.io/repo-revision" src.repo_revision (
            insert "arlon.io/repo-path" src.repo_path
              (insert "arlon.io/repo-url" src.repo_url secr.annotations)));
    }

-- An assignment to an entry of the data. A secret without data has a nil map, since Kubernetes
-- leaves an empty one out, and the assignment then panics.
unfoldable pub assign : String → String → Secret → Result Secret
assign key text secr = elim secr.contents [
  | [] ↦ err nil_map
  | _ ∷ _ ↦ ok (record secr { contents = insert key text secr.contents })
]

-- One entry that `update` may replace: a text that is given and differs.
unfoldable pub edit : String → String → Secret × Bool → Result (Secret × Bool)
unfolding assign
edit key text (secr, dirty) =
    if not (text == "") && not (text == read secr.contents key)
    then assign key text secr >>=ᵣ (λ s. ok (s, true))
    else ok (secr, dirty)

module _ (api : Secrets) where
  unfoldable pub is_valid_k8s_name : String → Bool
  is_valid_k8s_name name =
      if eqb (len name) 0 || ltb max_len_rfc1123 (len name) then false else api.matches_rfc1123 name

  unfoldable pub check_name : String → Result (Unit {0})
  check_name name =
      if not (is_valid_k8s_name name) then err ("invalid resource name: " <> name) else ok tt

  unfoldable pub check_absent : String → api.World → Result (Unit {0})
  check_absent name w = elim (api.get name w) [
    | ok _ ↦ err "a bundle with that name already exists"
    | err e ↦
        if not (api.is_not_found e)
        then err ("failed to check for existence of bundle: " <> e)
        else ok tt
  ]

  -- The secret that `create` makes of its arguments.
  unfoldable pub secret_of : String → Source → api.World → Result Secret
  secret_of name src w =
      if not (src.from_file == "") && not (src.repo_url == "")
      then err "file and repo cannot both be specified"
      else if not (src.from_file == "")
      then wrap "failed to read file: " (api.read_file src.from_file w)
        >>=ᵣ (λ contents. ok (static_secret name src contents))
      else if not (src.repo_url == "")
      then ok (dynamic_secret name src)
      else err "the bundle must be created from a file or repo URL"

  unfoldable pub create : String → Source → Exec api.World (Unit {0})
  create name src =
      reads (λ _. check_name name)
      >> reads (check_absent name)
      >> reads (secret_of name src)
      >>= λ secr. wrapped "failed to create secret: " (api.create secr)

  -- The rest of the changes, behind those of the texts.
  unfoldable pub edited_data :
      (from_file repo_url repo_path : String) → api.World → Secret × Bool → Result (Secret × Bool)
  edited_data from_file repo_url repo_path w (secr, dirty) =
      if not (from_file == "") && not (repo_url == "")
      then err "file and repo cannot both be specified"
      else if not (from_file == "")
      then (if not (read secr.labels "bundle-type" == "static")
          then err "manifest content can only be changed if bundle is static"
          else wrap "failed to read file: " (api.read_file from_file w) >>=ᵣ λ contents.
              assign "data" contents secr >>=ᵣ λ s. ok (s, true))
      else if not (repo_url == "") || not (repo_path == "")
      then (if read secr.labels "bundle-type" == "dynamic"
          then err "cannot update git reference of a dynamic bundle"
          else err "cannot specify repo URL or path for an existing static bundle")
      else ok (secr, dirty)

  -- The secret as `update` changes it, and whether it is dirty.
  unfoldable pub edited :
      Secret
      → (from_file repo_url repo_path description tags : String) → api.World
      → Result (Secret × Bool)
  unfolding edit edited_data
  edited secr from_file repo_url repo_path description tags w =
      edit "description" description (secr, false) >>=ᵣ λ described.
      edit "tags" tags described >>=ᵣ edited_data from_file repo_url repo_path w

  unfoldable pub update :
      (name from_file repo_url repo_path description tags : String) → Exec api.World (Unit {0})
  update name from_file repo_url repo_path description tags =
      reads (λ _. check_name name)
      >> wrapped "failed to get bundle secret: " (reads (api.get name))
      >>= λ secr. reads (edited secr from_file repo_url repo_path description tags) >>= λ done.
          if not done.1 then pure tt else wrapped "failed to update secret: " (api.update done.0)

  unfoldable pub delete : String → Exec api.World (Unit {0})
  delete name = wrapped "failed to delete bundle: " (api.delete name)

  unfoldable pub list : api.World → Result (List ListItem)
  unfolding list_item
  list w = elim (api.list w) [
    | err e ↦ err ("failed to list secrets: " <> e)
    | ok secrets ↦ ok (map list_item secrets)
  ]

  -- `names` are the bundles of the profile.
  unfoldable pub get_bundles_from_profile : List String → api.World → Result (List Bundle)
  get_bundles_from_profile [] w = ok []
  get_bundles_from_profile (name ∷ names) w =
      let rest = get_bundles_from_profile names w in
      elim (api.get name w) [
        | err e ↦ err ("failed to get bundle secret " <> (name <> (": " <> e)))
        | ok secr ↦ rest >>=ᵣ λ bundles. ok (bundle_of name secr ∷ bundles)
      ]
