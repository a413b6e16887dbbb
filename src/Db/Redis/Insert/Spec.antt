-- ===== src/Db/Redis/Insert/Spec.antt =====
-- What InsertOval is to leave behind, stated on the definitions of the root alone.
use goval_dictionary_v.Prelude.{Bool, false, ◌&&◌, ◌||◌, Option, List, [], ◌∷◌, map, if◌then◌else◌}
use goval_dictionary_v.Text.{Text, text_eq}
use goval_dictionary_v.GoMap.{elem}
use goval_dictionary_v.Models.{Definition}
use goval_dictionary_v.Db.Redis.Server.{Command, member_after, field_after, string_after, Codec}
use goval_dictionary_v.Db.Redis.Keys.{Kind, cves, packages}
use goval_dictionary_v.Db.Redis.Insert.{package_name}

-- What a definition is indexed under.
abbrev pub indexed : Text → Definition → Kind → List Text
indexed family d cves = map (λ c. c.cve_id) d.advisory.cves
indexed family d packages = map (package_name family) d.affected_packs

-- Some definition with this id is indexed under `x`.
abbrev pub covers : Text → List Definition → Text → Kind → Text → Bool
covers family [] id kind x = false
covers family (d ∷ ds) id kind x =
    (text_eq d.definition_id id && elem x (indexed family d kind)) || covers family ds id kind x

abbrev pub has_id : List Definition → Text → Bool
has_id [] id = false
has_id (d ∷ ds) id = text_eq d.definition_id id || has_id ds id

-- The encoding of the last definition with this id, or what was there.
abbrev pub stored : Codec → List Definition → Text → Option Text → Option Text
stored codec [] id o = o
stored codec (d ∷ ds) id o =
    stored codec ds id (if text_eq d.definition_id id then codec.marshal d else o)

-- What a list of commands that all succeed does.
abbrev pub member_after_all : List Command → Text → Text → Bool → Bool
member_after_all [] k m b = b
member_after_all (c ∷ cs) k m b = member_after_all cs k m (member_after c k m b)

abbrev pub field_after_all : List Command → Text → Text → Option Text → Option Text
field_after_all [] k f o = o
field_after_all (c ∷ cs) k f o = field_after_all cs k f (field_after c k f o)

abbrev pub string_after_all : List Command → Text → Option Text → Option Text
string_after_all [] k o = o
string_after_all (c ∷ cs) k o = string_after_all cs k (string_after c k o)
