-- ===== src/Models.antt =====
-- models/models.go: the records that every converter produces and every driver stores.
use goval_dictionary_v.Prelude.{ℕ, Bool, not, List, [], Option, none, false, ◌==◌}
use goval_dictionary_v.Text.Numbers.{ℤ, pos}
use goval_dictionary_v.Text.{Text}

-- A time by its calendar and clock in a zone, with the offset of the zone.
pub record Time : Type 0 where
  pub year : ℕ
  pub month : ℕ
  pub day : ℕ
  pub hour : ℕ
  pub minute : ℕ
  pub second : ℕ
  pub nanosecond : ℕ
  -- minutes east of UTC
  pub offset : ℤ

-- time.Time{}
abbrev pub zero_time : Time
zero_time = record {
  year = 1;
  month = 1;
  day = 1;
  hour = 0;
  minute = 0;
  second = 0;
  nanosecond = 0;
  offset = pos 0;
}

-- time.Date(1000, time.January, 1, 0, 0, 0, 0, time.UTC)
abbrev pub default_time : Time
default_time = record zero_time { year = 1000 }

pub record Cve : Type 0 where
  pub id : ℕ
  pub advisory_id : ℕ
  pub cve_id : Text
  pub cvss2 : Text
  pub cvss3 : Text
  pub cwe : Text
  pub impact : Text
  pub href : Text
  pub public : Text

pub record Bugzilla : Type 0 where
  pub id : ℕ
  pub advisory_id : ℕ
  pub bugzilla_id : Text
  pub url : Text
  pub title : Text

pub record Cpe : Type 0 where
  pub id : ℕ
  pub advisory_id : ℕ
  pub cpe : Text

pub record Advisory : Type 0 where
  pub id : ℕ
  pub definition_id : ℕ
  pub severity : Text
  pub cves : List Cve
  pub bugzillas : List Bugzilla
  pub affected_cpe_list : List Cpe
  pub affected_repository : Text
  pub issued : Time
  pub updated : Time

pub record Debian : Type 0 where
  pub id : ℕ
  pub definition_id : ℕ
  pub more_info : Text
  pub date : Time

pub record Package : Type 0 where
  pub id : ℕ
  pub definition_id : ℕ
  pub name : Text
  pub version : Text
  pub arch : Text
  pub not_fixed_yet : Bool
  pub modularity_label : Text

pub record Reference : Type 0 where
  pub id : ℕ
  pub definition_id : ℕ
  pub source : Text
  pub ref_id : Text
  pub ref_url : Text

pub record Definition : Type 0 where
  pub id : ℕ
  pub root_id : ℕ
  pub definition_id : Text
  pub title : Text
  pub description : Text
  pub advisory : Advisory
  pub debian : Option Debian
  pub affected_packs : List Package
  pub references : List Reference

pub record Root : Type 0 where
  pub id : ℕ
  pub family : Text
  pub os_version : Text
  pub definitions : List Definition
  pub timestamp : Time

-- The zero values of Go, for the fields that a composite literal leaves out.
abbrev pub new_cve : Cve
new_cve = record {
  id = 0;
  advisory_id = 0;
  cve_id = [];
  cvss2 = [];
  cvss3 = [];
  cwe = [];
  impact = [];
  href = [];
  public = [];
}

abbrev pub new_package : Package
new_package = record {
  id = 0;
  definition_id = 0;
  name = [];
  version = [];
  arch = [];
  not_fixed_yet = false;
  modularity_label = [];
}

abbrev pub new_reference : Reference
new_reference = record { id = 0; definition_id = 0; source = []; ref_id = []; ref_url = [] }

abbrev pub new_bugzilla : Bugzilla
new_bugzilla = record { id = 0; advisory_id = 0; bugzilla_id = []; url = []; title = [] }

abbrev pub new_advisory : Advisory
new_advisory = record {
  id = 0;
  definition_id = 0;
  severity = [];
  cves = [];
  bugzillas = [];
  affected_cpe_list = [];
  affected_repository = [];
  issued = zero_time;
  updated = zero_time;
}

abbrev pub new_definition : Definition
new_definition = record {
  id = 0;
  root_id = 0;
  definition_id = [];
  title = [];
  description = [];
  advisory = new_advisory;
  debian = none;
  affected_packs = [];
  references = [];
}

abbrev pub latest_schema_version : ℕ
latest_schema_version = 3

pub record FetchMeta : Type 0 where
  pub goval_dict_revision : Text
  pub schema_version : ℕ
  pub last_fetched_at : Time

unfoldable pub outdated : FetchMeta → Bool
outdated f = not (f.schema_version == latest_schema_version)
