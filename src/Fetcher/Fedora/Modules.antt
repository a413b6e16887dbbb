-- ===== src/Fetcher/Fedora/Modules.antt =====
-- fetcher/fedora/fedora.go: modules.yaml, and the module of an advisory.
pub mod Koji
use goval_dictionary_v.Prelude.{
  ℕ, Bool, true, false, Option, none, some, List, [], ◌∷◌, ◌++◌, ◌==◌, if◌then◌else◌,
}
use goval_dictionary_v.Outcome.{
  Outcome, ok, err, panic, ◌>>=◌, failed_fetch, failed_decode, no_update_info, bad_title,
  module_not_found,
}
use goval_dictionary_v.Text.{Text, codes, text_eq, join}
use goval_dictionary_v.Text.Numbers.{ℤ, pos, negsuc}
use goval_dictionary_v.Text.Cut.{cut_last}
use goval_dictionary_v.GoMap.{Map, lookup, insert}
use goval_dictionary_v.Converters.Updates.{UpdatePackage, FedoraUpdate}
use goval_dictionary_v.Fetcher.Util.{Fetch, fetched, FetchRequest, FetchResult, gzip, txt}
use goval_dictionary_v.Fetcher.Fedora.{ModuleInfo, Formats, extract_info_from_repo_md, fetch_found}
use goval_dictionary_v.Fetcher.Fedora.Rpm.{
  or_bad, new_package_from_rpm, update_info_title, module_label,
}

-- moduleInfo{}
abbrev pub new_module_info : ModuleInfo
new_module_info = record {
  version = pos 0;
  name = [];
  stream = [];
  data_version = pos 0;
  context = [];
  arch = [];
  rpms = [];
}

unfoldable pub is_version_2 : ℤ → Bool
is_version_2 (pos n) = n == 2
is_version_2 (negsuc n) = false

-- kojiPkgURL, filled in
unfoldable pub koji_url : Text → Text → Text → Text → Text
koji_url name ver rel arch =
    codes "https://kojipkgs.fedoraproject.org/packages/"
    ++ (name
        ++ (codes "/"
            ++ (ver
                ++ (codes "/"
                    ++ (rel ++ (codes "/files/module/modulemd." ++ (arch ++ codes ".txt")))))))

unfoldable pub new_koji_pkgs_request : Text → Text → Outcome FetchRequest
new_koji_pkgs_request arch uinfo_title = do
  rel ← or_bad (cut_last 45 uinfo_title)
  ver ← or_bad (cut_last 45 rel.0)
  ok (record {
    target = [];
    url = koji_url ver.0 ver.1 rel.1 arch;
    mime_type = txt;
    concurrently = false;
    log_suppressed = false;
  })

-- `result[0]`
unfoldable pub first_body : List FetchResult → Outcome Text
first_body [] = panic
first_body (r ∷ results) = ok r.body

module _ (formats : Formats) where
  -- the lines of one document in `contents`, and the modules read before
  unfoldable pub parse_module_lines :
      List Text → List Text → Map ModuleInfo → Outcome (Map ModuleInfo)
  parse_module_lines [] contents modules = ok modules
  parse_module_lines (str ∷ strs) contents modules = elim (text_eq str (codes "---")) [
    | true ↦ parse_module_lines strs [] modules
    | false ↦ elim (text_eq str (codes "...")) [
      | true ↦ elim (formats.module_info (join contents (codes "\n"))) [
        | none ↦ err failed_decode
        | some info ↦ parse_module_lines strs contents (
            if is_version_2 info.version
            then insert (update_info_title info) info modules
            else modules)
      ]
      | false ↦ parse_module_lines strs (contents ++ (str ∷ [])) modules
    ]
  ]

  unfoldable pub parse_modules_yaml_fedora : Text → Outcome (Map ModuleInfo)
  parse_modules_yaml_fedora b = parse_module_lines (formats.lines b) [] []

  unfoldable pub parse_modules_of :
      List FetchResult → Map (Map ModuleInfo) → Outcome (Map (Map ModuleInfo))
  parse_modules_of [] yamls = ok yamls
  parse_modules_of (v ∷ results) yamls = do
    m ← parse_modules_yaml_fedora v.body
    parse_modules_of results (insert v.target m yamls)

  -- `if yml, ok := moduleYaml[uinfoTitle]; !ok { return yml, nil }`, and what follows it
  unfoldable pub module_of_title : Option ModuleInfo → Outcome ModuleInfo
  module_of_title none = ok new_module_info
  module_of_title (some yml) = err module_not_found

  module _ (fetch : Fetch) where
    unfoldable pub fetch_modules_yaml_fedora : List FetchResult → Outcome (Map (Map ModuleInfo))
    fetch_modules_yaml_fedora results = do
      reqs ← extract_info_from_repo_md formats results (codes "modules") gzip
      feeds ← fetch_found formats fetch reqs
      parse_modules_of feeds []

    unfoldable pub fetch_module_info_from_koji_pkgs : Text → Text → Outcome ModuleInfo
    fetch_module_info_from_koji_pkgs arch uinfo_title = do
      req ← new_koji_pkgs_request arch uinfo_title
      results ← fetched (fetch (req ∷ []))
      body ← first_body results
      module_yaml ← parse_modules_yaml_fedora body
      module_of_title (lookup uinfo_title module_yaml)

    -- moduleYaml[version][update.Title]
    unfoldable pub known_module : Map (Map ModuleInfo) → Text → Text → Option ModuleInfo
    known_module module_yaml version title = elim (lookup version module_yaml) [
      | none ↦ none
      | some infos ↦ lookup title infos
    ]

    unfoldable pub find_module : Text → Map (Map ModuleInfo) → Text → Text → Outcome ModuleInfo
    find_module arch module_yaml version title = elim (known_module module_yaml version title) [
      | some yml ↦ ok yml
      | none ↦ fetch_module_info_from_koji_pkgs arch title
    ]
