-- ===== src/Fetcher/Fedora/Updates.antt =====
-- fetcher/fedora/fedora.go: FetchUpdateInfosFedora, which puts the advisories of the two
-- repositories and of the two architectures together. A `range` over a map comes in any order; here
-- it is that of the entries.
use goval_dictionary_v.Prelude.{none, some, List, [], ◌∷◌, ◌++◌}
use goval_dictionary_v.Outcome.{Outcome, ok, ◌>>=◌}
use goval_dictionary_v.Text.{Text, codes}
use goval_dictionary_v.GoMap.{Map, lookup, insert}
use goval_dictionary_v.Converters.Updates.{UpdatePackage, FedoraUpdate}
use goval_dictionary_v.Fetcher.Util.{fetch_requests, Fetch, FetchRequest}
use goval_dictionary_v.Fetcher.Fedora.{
  ModuleInfo, Formats, new_fedora_fetch_requests, fetch_update_infos_fedora,
}
use goval_dictionary_v.Fetcher.Fedora.Rpm.{new_package_from_rpm, module_label}
use goval_dictionary_v.Fetcher.Fedora.Modules.{fetch_modules_yaml_fedora, find_module}
use goval_dictionary_v.Fetcher.Fedora.Advisories.{parse_fetch_results_fedora}

-- the values of a map
abbrev pub entries {ℓ} : {V : Type ℓ} → Map V → List V
entries [] = []
entries ((k, v) ∷ m) = v ∷ entries m

unfoldable pub by_filename : List UpdatePackage → Map UpdatePackage → Map UpdatePackage
by_filename [] tmp = tmp
by_filename (p ∷ ps) tmp = by_filename ps (insert p.filename p tmp)

unfoldable pub unique_packages : List UpdatePackage → List UpdatePackage
unique_packages pkgs = entries (by_filename pkgs [])

-- the updates of `source`, each with those of `target` for the release behind it
unfoldable pub merge_updates :
    Map (List FedoraUpdate) → Map (List FedoraUpdate) → Map (List FedoraUpdate)
merge_updates [] target = []
merge_updates ((os_ver, updates) ∷ source) target =
    (os_ver, elim (lookup os_ver target) [ none ↦ updates | some more ↦ updates ++ more ])
    ∷ merge_updates source target

-- one advisory into those of a release, with the packages of one that has its id already
unfoldable pub add_update_info : FedoraUpdate → Map FedoraUpdate → Map FedoraUpdate
add_update_info uinfo infos =
    insert uinfo.id
      (elim (lookup uinfo.id infos) [
        | none ↦ uinfo
        | some tmp ↦ record uinfo { packages = unique_packages (uinfo.packages ++ tmp.packages) }
      ])
      infos

unfoldable pub add_update_infos : List FedoraUpdate → Map FedoraUpdate → Map FedoraUpdate
add_update_infos [] infos = infos
add_update_infos (uinfo ∷ us) infos = add_update_infos us (add_update_info uinfo infos)

unfoldable pub infos_of : Text → Map (Map FedoraUpdate) → Map FedoraUpdate
infos_of os_ver uinfos = elim (lookup os_ver uinfos) [ none ↦ [] | some infos ↦ infos ]

unfoldable pub add_arch : Map (List FedoraUpdate) → Map (Map FedoraUpdate) → Map (Map FedoraUpdate)
add_arch [] uinfos = uinfos
add_arch ((os_ver, us) ∷ merged) uinfos =
    add_arch merged (insert os_ver (add_update_infos us (infos_of os_ver uinfos)) uinfos)

unfoldable pub update_lists : Map (Map FedoraUpdate) → Map (List FedoraUpdate)
update_lists [] = []
update_lists ((os_ver, infos) ∷ uinfos) = (os_ver, entries infos) ∷ update_lists uinfos

unfoldable pub rpm_packages : List Text → Outcome (List UpdatePackage)
rpm_packages [] = ok []
rpm_packages (rpm ∷ rpms) =
    let rest = rpm_packages rpms in do p ← new_package_from_rpm rpm; ps ← rest; ok (p ∷ ps)

module _ (formats : Formats) (fetch : Fetch) where
  unfoldable pub fetch_everything_fedora : List FetchRequest → Outcome (Map (List FedoraUpdate))
  fetch_everything_fedora reqs = do
    feeds ← fetch_requests fetch reqs
    updates ← fetch_update_infos_fedora formats fetch feeds
    parse_fetch_results_fedora formats fetch updates

  -- the loops over the updates of each release, which take their packages from their module
  unfoldable pub with_modules :
      Text → Map (Map ModuleInfo) → Text → List FedoraUpdate → Outcome (List FedoraUpdate)
  with_modules arch module_yaml version [] = ok []
  with_modules arch module_yaml version (update ∷ updates) =
      let rest = with_modules arch module_yaml version updates in
      do
        yml ← find_module formats fetch arch module_yaml version update.title
        pkgs ← rpm_packages yml.rpms
        more ← rest
        ok (record update { packages = pkgs; modularity_label = module_label yml } ∷ more)

  unfoldable pub with_modules_all :
      Text → Map (Map ModuleInfo) → Map (List FedoraUpdate) → Outcome (Map (List FedoraUpdate))
  with_modules_all arch module_yaml [] = ok []
  with_modules_all arch module_yaml ((version, updates) ∷ results) =
      let rest = with_modules_all arch module_yaml results in
      do us ← with_modules arch module_yaml version updates; more ← rest; ok ((version, us) ∷ more)

  unfoldable pub fetch_modules_fedora : List FetchRequest → Text → Outcome (Map (List FedoraUpdate))
  fetch_modules_fedora reqs arch = do
    feeds ← fetch_requests fetch reqs
    updates ← fetch_update_infos_fedora formats fetch feeds
    module_yaml ← fetch_modules_yaml_fedora formats fetch feeds
    results ← parse_fetch_results_fedora formats fetch updates
    with_modules_all arch module_yaml results

  unfoldable pub fetch_archs :
      List Text → List Text → Map (Map FedoraUpdate) → Outcome (Map (Map FedoraUpdate))
  fetch_archs versions [] uinfos = ok uinfos
  fetch_archs versions (arch ∷ archs) uinfos = do
    everything ← fetch_everything_fedora (new_fedora_fetch_requests versions arch).0
    modules ← fetch_modules_fedora (new_fedora_fetch_requests versions arch).1 arch
    fetch_archs versions archs (add_arch (merge_updates everything modules) uinfos)

  unfoldable pub fetch_update_infos : List Text → Outcome (Map (List FedoraUpdate))
  fetch_update_infos versions = do
    uinfos ← fetch_archs versions (codes "x86_64" ∷ codes "aarch64" ∷ []) []
    ok (update_lists uinfos)
