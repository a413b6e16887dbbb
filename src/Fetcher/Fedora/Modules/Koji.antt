-- ===== src/Fetcher/Fedora/Modules/Koji.antt =====
-- The module that is asked for at kojipkgs.fedoraproject.org.
use goval_dictionary_v.Prelude.{◌≡◌, Option, none, some, [], ◌∷◌, refl}
use goval_dictionary_v.Outcome.{Outcome, ok, err, panic, ◌>>=◌}
use goval_dictionary_v.Text.{Text}
use goval_dictionary_v.GoMap.{lookup}
use goval_dictionary_v.Fetcher.Util.{Fetch, fetched}
use goval_dictionary_v.Fetcher.Fedora.{ModuleInfo, Formats}
use goval_dictionary_v.Fetcher.Fedora.Modules.{
  new_module_info, new_koji_pkgs_request, first_body, parse_modules_yaml_fedora, module_of_title,
  fetch_module_info_from_koji_pkgs,
}

-- a property of the value of what succeeds
abbrev Yields : {A : Type 0} → (A → Type 0) → Outcome A → Type 0
Yields P (ok a) = P a
Yields P (err e) = Unit
Yields P panic = Unit

bind-Yields :
    {A B : Type 0} (P : B → Type 0) (o : Outcome A) (k : A → Outcome B)
    → ((a : A) → Yields P (k a))
    → Yields P (o >>= k)
bind-Yields P (ok a) k h = h a
bind-Yields P (err e) k h = tt
bind-Yields P panic k h = tt

module _ (formats : Formats) (fetch : Fetch) where
  module_of_title-Yields :
      (o : Option ModuleInfo) → Yields (λ m. m ≡ new_module_info) (module_of_title formats o)
  unfolding module_of_title
  module_of_title-Yields none = refl
  module_of_title-Yields (some yml) = tt

  empty_or_error :
      (arch uinfo_title : Text)
      → Yields
          (λ m. m ≡ new_module_info)
          (fetch_module_info_from_koji_pkgs formats fetch arch uinfo_title)
  unfolding fetch_module_info_from_koji_pkgs
  empty_or_error arch uinfo_title = bind-Yields _ (new_koji_pkgs_request arch uinfo_title) _ (λ req.
      bind-Yields _ (fetched (fetch (req ∷ []))) _ (λ results.
        bind-Yields _ (first_body results) _ (λ body.
          bind-Yields _ (parse_modules_yaml_fedora formats body) _
            (λ infos. module_of_title-Yields (lookup uinfo_title infos)))))

  -- Whatever is answered, a module that fetchModuleInfoFromKojiPkgs returns without an error is the
  -- empty one, never one that was read.
  pub fetch_module_info_from_koji_pkgs-inverted :
      (arch uinfo_title : Text) (m : ModuleInfo)
      → fetch_module_info_from_koji_pkgs formats fetch arch uinfo_title ≡ ok m
      → m ≡ new_module_info
  fetch_module_info_from_koji_pkgs-inverted arch uinfo_title m e =
      rw e at (empty_or_error arch uinfo_title)
