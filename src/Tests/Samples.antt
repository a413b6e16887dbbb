-- ===== src/Tests/Samples.antt =====
-- Two definitions, a root with both, and a codec that knows them.
use goval_dictionary_v.Prelude.{◌≡◌, refl, Option, some, [], ◌∷◌, if◌then◌else◌}
use goval_dictionary_v.Text.{Text, codes, text_eq}
use goval_dictionary_v.Models.{
  default_time, new_cve, Package, new_package, new_advisory, Definition, new_definition, Root,
}
use goval_dictionary_v.Db.Redis.Server.{strip, Codec}
use goval_dictionary_v.Tests.Encoding.{decode, put_deps, decode-put_deps, SameDeps-eq}

abbrev pub bash_package : Package
bash_package = record new_package { id = 7; name = codes "bash"; version = codes "5.1" }

abbrev pub x86_package : Package
x86_package = record new_package { name = codes "bash"; arch = codes "x86_64" }

abbrev pub kernel_package : Package
kernel_package = record new_package { name = codes "linux"; version = codes "5.10" }

abbrev pub bash_definition : Definition
bash_definition = record new_definition {
  id = 3;
  definition_id = codes "D1";
  advisory = record new_advisory { cves = record new_cve { cve_id = codes "CVE-1" } ∷ [] };
  affected_packs = bash_package ∷ [];
}

abbrev pub kernel_definition : Definition
kernel_definition = record new_definition {
  definition_id = codes "D2";
  advisory = record new_advisory { cves = record new_cve { cve_id = codes "CVE-2" } ∷ [] };
  affected_packs = kernel_package ∷ [];
}

abbrev pub old_root : Root
old_root = record {
  id = 0;
  family = codes "debian";
  os_version = codes "11.2";
  definitions = bash_definition ∷ kernel_definition ∷ [];
  timestamp = default_time;
}

-- The bash definition is gone.
abbrev pub new_root : Root
new_root = record old_root { definitions = kernel_definition ∷ [] }

abbrev pub read_definition : Text → Option Definition
read_definition t =
    if text_eq t (codes "D1") then some (strip bash_definition) else some (strip kernel_definition)

pub read-written :
    (d : Definition) (t : Text)
    → read_definition d.definition_id ≡ some (strip d)
    → some d.definition_id ≡ some t
    → read_definition t ≡ some (strip d)
read-written d t e h = cc

abbrev pub samples : Codec
samples = record {
  IsEncodable = λ d. read_definition d.definition_id ≡ some (strip d);
  marshal = λ d. some d.definition_id;
  unmarshal = read_definition;
  marshal_deps = λ d. some (put_deps d);
  unmarshal_deps = λ t. some (decode t).deps;
  format_timestamp = λ t. codes "now";
  unmarshal-marshal = read-written;
  unmarshal-marshal_deps =
      λ d t h. ((decode t).deps, refl, SameDeps-eq _ d (decode-put_deps d t h));
  unmarshal-empty = refl;
}
