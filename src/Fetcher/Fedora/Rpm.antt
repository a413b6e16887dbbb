-- ===== src/Fetcher/Fedora/Rpm.antt =====
-- fetcher/fedora/types.go: the name of an RPM, read from its end, and the two names of a module.
pub mod Laws
use goval_dictionary_v.Prelude.{
  ℕ, Bool, true, false, Option, none, some, List, [], ◌∷◌, ◌++◌, ◌==◌, if◌then◌else◌,
}
use goval_dictionary_v.Outcome.{Outcome, ok, err, panic, ◌>>=◌, bad_title}
use goval_dictionary_v.Text.{Text, codes, trim_suffix}
use goval_dictionary_v.Text.Cut.{cut_first, cut_last}
use goval_dictionary_v.Text.Numbers.{format_int}
use goval_dictionary_v.Converters.Updates.{UpdatePackage}
use goval_dictionary_v.Fetcher.Fedora.{ModuleInfo}

abbrev pub or_bad {ℓ} : {A : Type ℓ} → Option A → Outcome A
or_bad none = err bad_title
or_bad (some a) = ok a

-- the epoch and the version
unfoldable pub epoch_and_version : Text → Text × Text
epoch_and_version ver = elim (cut_first 58 ver) [ none ↦ (codes "0", ver) | some p ↦ p ]

unfoldable pub new_package_from_rpm : Text → Outcome UpdatePackage
new_package_from_rpm r = do
  arch ← or_bad (cut_last 46 (trim_suffix r (codes ".rpm")))
  rel ← or_bad (cut_last 45 arch.0)
  ver ← or_bad (cut_last 45 rel.0)
  ok (record {
    name = ver.0;
    epoch = (epoch_and_version ver.1).0;
    version = (epoch_and_version ver.1).1;
    release = rel.1;
    arch = arch.1;
    filename = trim_suffix r (codes ".rpm");
  })

-- "%s-%s-%d.%s" and "%s:%s:%d:%s"
unfoldable pub update_info_title : ModuleInfo → Text
update_info_title f =
    f.name ++ (45 ∷ (f.stream ++ (45 ∷ (format_int f.data_version ++ (46 ∷ f.context)))))

unfoldable pub module_label : ModuleInfo → Text
module_label f =
    f.name ++ (58 ∷ (f.stream ++ (58 ∷ (format_int f.data_version ++ (58 ∷ f.context)))))
