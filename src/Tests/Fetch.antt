-- ===== src/Tests/Fetch.antt =====
-- The theorems on the fetchers, applied to two requests, to one module and to the name of an RPM.
use mathlib.Core.List.{Perm}
use goval_dictionary_v.Prelude.{
  ◌≡◌, refl, false, Option, none, some, [], ◌∷◌, ◌++◌, map, arith, if◌then◌else◌,
}
use goval_dictionary_v.Text.{Text, codes, text_eq}
use goval_dictionary_v.Text.Numbers.{pos, format_int, decimal}
use goval_dictionary_v.Outcome.{Error, ok, failed_download}
use goval_dictionary_v.Text.Cut.{cut_last}
use goval_dictionary_v.GoMap.{lookup, insert}
use goval_dictionary_v.Converters.Updates.{UpdatePackage}
use goval_dictionary_v.Fetcher.Util.{Fetch, fetched, FetchRequest, FetchResult, xml}
use goval_dictionary_v.Fetcher.Feeds.{
  through, Workers, new_result, Reaches, here, onward, assign, test, send_result, started,
  collected, tested,
}
use goval_dictionary_v.Fetcher.Feeds.Laws.{Consistent, result_for, Reaches-Consistent}
use goval_dictionary_v.Fetcher.Feeds.Outcomes.{Reaches-collected, Reaches-lost_error}
use goval_dictionary_v.Fetcher.Fedora.{ModuleInfo, Formats}
use goval_dictionary_v.Fetcher.Fedora.Rpm.{new_package_from_rpm, update_info_title}
use goval_dictionary_v.Fetcher.Fedora.Rpm.Laws.{rpm_name, new_package_from_rpm-rpm_name}
use goval_dictionary_v.Fetcher.Fedora.Modules.{
  parse_module_lines, is_version_2, new_module_info, new_koji_pkgs_request,
  parse_modules_yaml_fedora, fetch_module_info_from_koji_pkgs, first_body, module_of_title,
}
use goval_dictionary_v.Fetcher.Fedora.Modules.Koji.{fetch_module_info_from_koji_pkgs-inverted}

abbrev request : Text → FetchRequest
request target = record {
  target = target;
  url = target;
  mime_type = xml;
  concurrently = false;
  log_suppressed = false;
}

abbrev broken : FetchRequest
broken = request (codes "broken")

abbrev working : FetchRequest
working = request (codes "working")

abbrev download : FetchRequest → Text × Option Error
download r =
    if text_eq r.target (codes "broken") then ([], some failed_download) else (codes "body", none)

download-broken : download broken ≡ ([], some failed_download)
unfolding text_eq
download-broken = refl

download-working : download working ≡ (codes "body", none)
unfolding text_eq
download-working = refl

Reaches-lost_error_example :
    (s : Workers) × Reaches download (started (broken ∷ working ∷ [])) s
    × (collected s ≡ (new_result broken [] ∷ new_result working (codes "body") ∷ [], none))
Reaches-lost_error_example =
    Reaches-lost_error download broken working failed_download (codes "body") download-broken
      download-working

-- one worker to the end of its work
abbrev one_through : Workers
one_through = record {
  shared_err = none;
  workers = through ∷ [];
  res_chan = new_result working (codes "body") ∷ [];
  err_chan = [];
}

one_through-Reaches : Reaches download (started (working ∷ [])) one_through
unfolding started tested text_eq
one_through-Reaches = onward _ _ _ (assign [] [] none [] [] working) (
    onward _ _ _ (test [] [] none [] [] working (codes "body"))
      (onward _ _ _ (send_result [] [] none [] [] working (codes "body")) (here _)))

Reaches-Consistent_example : Consistent download (working ∷ []) one_through
Reaches-Consistent_example =
    Reaches-Consistent download (working ∷ []) one_through one_through-Reaches

-- every download works
abbrev steady : FetchRequest → Text × Option Error
steady r = (codes "body", none)

steady-Reaches : Reaches steady (started (working ∷ [])) one_through
unfolding started tested
steady-Reaches = onward _ _ _ (assign [] [] none [] [] working) (
    onward _ _ _ (test [] [] none [] [] working (codes "body"))
      (onward _ _ _ (send_result [] [] none [] [] working (codes "body")) (here _)))

Reaches-collected_example :
    Perm (collected one_through).0 (map (result_for steady) (working ∷ []))
    × ((collected one_through).1 ≡ none)
Reaches-collected_example =
    Reaches-collected steady (working ∷ []) (λ r m. refl) one_through steady-Reaches (tt, tt)

abbrev perl_rpm : UpdatePackage
perl_rpm = record {
  name = codes "perl-libs";
  epoch = codes "4";
  version = codes "5.30";
  release = codes "45.f32";
  arch = codes "x86_64";
  filename = [];
}

new_package_from_rpm-rpm_name_example :
    new_package_from_rpm (rpm_name perl_rpm ++ codes ".rpm")
    ≡ ok (record perl_rpm { filename = rpm_name perl_rpm })
new_package_from_rpm-rpm_name_example =
    new_package_from_rpm-rpm_name perl_rpm (ground arith) (ground arith) (ground arith)
      (ground arith)

abbrev perl_info : ModuleInfo
perl_info = record {
  version = pos 2;
  name = codes "perl";
  stream = codes "5";
  data_version = pos 1;
  context = codes "c";
  arch = codes "x86_64";
  rpms = [];
}

-- Every document is that of the module.
abbrev formats : Formats
formats = record {
  repo_md = λ s. none;
  updates = λ s. none;
  bugzilla = λ s. none;
  module_info = λ s. some perl_info;
  lines = λ s. codes "---" ∷ s ∷ codes "..." ∷ [];
  cve_ids = λ s. [];
  various_flaws = λ s. false;
  Url = Text;
  parse_url = λ s. some s;
  path = λ u. u;
  with_path = λ p u. p;
  show_url = λ u. u;
}

abbrev koji_answer : FetchResult
koji_answer = record { target = []; url = []; body = codes "module"; log_suppressed = false }

abbrev koji : Fetch
koji reqs = (koji_answer ∷ [], none)

-- the answer holds a module of another title
koji_run :
    fetch_module_info_from_koji_pkgs formats koji (codes "x86_64") (codes "perl-6-1.c")
    ≡ ok new_module_info
unfolding fetch_module_info_from_koji_pkgs new_koji_pkgs_request cut_last fetched first_body
    parse_modules_yaml_fedora parse_module_lines text_eq is_version_2 insert lookup
    update_info_title format_int decimal module_of_title
koji_run = refl

fetch_module_info_from_koji_pkgs-inverted_example : new_module_info ≡ new_module_info
fetch_module_info_from_koji_pkgs-inverted_example =
    fetch_module_info_from_koji_pkgs-inverted formats koji (codes "x86_64") (codes "perl-6-1.c")
      new_module_info koji_run
