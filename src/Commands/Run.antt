-- ===== src/Commands/Run.antt =====
-- The commands fetch-*.go of commands/, after NewDB. The fetchers are arguments: the functions of
-- Fetcher with their parameters given.
use goval_dictionary_v.Prelude.{ℕ, Bool, Option, List, [], ◌∷◌, ◌++◌, map, if◌then◌else◌}
use goval_dictionary_v.Text.{Text, codes, text_eq}
use goval_dictionary_v.Outcome.{Outcome, ok, err, ◌>>=◌, unknown_suse_type}
use goval_dictionary_v.GoMap.{Map, insert, values}
use goval_dictionary_v.Models.{Time}
use goval_dictionary_v.Config
use goval_dictionary_v.Converters.Alpine.{SecDb, convert_alpine}
use goval_dictionary_v.Converters.Debian.{OvalDefinition, convert_debian}
use goval_dictionary_v.Converters.Oracle.{OracleDefinition, convert_oracle}
use goval_dictionary_v.Converters.Redhat.{RedhatDefinition, convert_redhat}
use goval_dictionary_v.Converters.Suse.{SuseRoot}
use goval_dictionary_v.Converters.Suse.Convert.{convert_suse}
use goval_dictionary_v.Converters.Ubuntu.{UbuntuRoot, convert_ubuntu}
use goval_dictionary_v.Converters.Updates.{
  AmazonUpdate, FedoraUpdate, convert_amazon, convert_fedora,
}
use goval_dictionary_v.Fetcher.Util.{FetchResult}
use goval_dictionary_v.Commands.{Database, after_call}
use goval_dictionary_v.Commands.Fetch.{
  OvalDocument, unique, file_name, wanted, gather, unmarshal_body, read_oval, seconds, prepare,
  run_fetch, insert_root, insert_roots, insert_files,
}

-- the switch on suse-type
unfoldable pub suse_type_of : Text → Outcome Text
suse_type_of name =
    if text_eq name (codes "opensuse")
    then ok Config.opensuse
    else if text_eq name (codes "opensuse-leap")
    then ok Config.opensuse_leap
    else if text_eq name (codes "suse-enterprise-server")
    then ok Config.suse_enterprise_server
    else if text_eq name (codes "suse-enterprise-desktop")
    then ok Config.suse_enterprise_desktop
    else err unknown_suse_type

-- the documents of the files for one version of Red Hat, by the names of the files
unfoldable pub redhat_documents :
    (Text → Text → Option Time)
    → (Text → Option (OvalDocument (List RedhatDefinition)))
    → List FetchResult
    → Map (List RedhatDefinition)
    → Outcome (Map (List RedhatDefinition))
redhat_documents parse decode [] m = ok m
redhat_documents parse decode (r ∷ rs) m =
    read_oval parse decode seconds r
    >>= (λ ds. redhat_documents parse decode rs (insert (file_name r.url) ds m))

-- the two documents in their order, empty where a file was not there
unfoldable pub roots_of_version : Text → Map (List RedhatDefinition) → List (List RedhatDefinition)
roots_of_version v m =
    values (codes "rhel-" ++ (v ++ codes ".oval.xml.bz2")) m
    ∷ values (codes "com.redhat.rhsa-RHEL" ++ (v ++ codes ".xml")) m
    ∷ []

module _ (database : Database) (now : ℕ → Time) (parse : Text → Text → Option Time)
    (no_details : Bool) where
  unfoldable pub run_fetch_alpine :
      (List Text → Outcome (List FetchResult))
      → (Text → Option SecDb)
      → List Text
      → database.State
      → database.State × Outcome {0} Unit
  run_fetch_alpine fetch decode args = run_fetch database now (λ s.
      after_call (s, fetch (unique args))
        (λ results s.
          after_call
            (
              s,
              gather
                  (λ r.
                    unmarshal_body decode r
                    >>= (λ db. ok ((r.target, convert_alpine no_details db) ∷ [])))
                  results [],
            )
            (λ ps s. insert_roots database now Config.alpine ps 0 s)))

  unfoldable pub run_fetch_amazon :
      (List Text → Outcome (Map (List AmazonUpdate)))
      → List Text
      → database.State
      → database.State × Outcome {0} Unit
  run_fetch_amazon fetch args = run_fetch database now (λ s.
      after_call (s, fetch (unique args))
        (λ m s.
          insert_roots database now Config.amazon
            (map (λ p. (p.0, convert_amazon parse no_details p.1)) m) 0 s))

  unfoldable pub run_fetch_debian :
      (List Text → Outcome (List FetchResult))
      → (Text → Option (OvalDocument (List OvalDefinition)))
      → List Text
      → database.State
      → database.State × Outcome {0} Unit
  run_fetch_debian fetch decode args = run_fetch database now (λ s.
      after_call (s, fetch (unique args))
        (λ results s.
          insert_files database now Config.debian
            (λ r.
              read_oval parse decode (codes "2006-01-02T15:04:05.999-07:00") r
              >>= (λ ds. ok ((r.target, convert_debian parse no_details ds) ∷ [])))
            results 0 s))

  -- fetchFedora returns after the inserts, without the last UpsertFetchMeta.
  unfoldable pub run_fetch_fedora :
      (List Text → Outcome (Map (List FedoraUpdate)))
      → List Text
      → database.State
      → database.State × Outcome {0} Unit
  run_fetch_fedora fetch args s = after_call (prepare database now s) (λ meta s.
      after_call (s, fetch (unique args))
        (λ m s.
          after_call
            (insert_roots database now Config.fedora
              (map (λ p. (p.0, convert_fedora parse no_details p.1)) m) 0 s)
            (λ i s. (s, ok tt))))

  unfoldable pub run_fetch_oracle :
      Outcome (List FetchResult)
      → (Text → Option (OvalDocument (List OracleDefinition)))
      → List Text
      → database.State
      → database.State × Outcome {0} Unit
  run_fetch_oracle fetched decode args = run_fetch database now (λ s.
      after_call (s, fetched)
        (λ results s.
          after_call
            (
              s,
              gather
                  (λ r.
                    read_oval parse decode seconds r
                    >>= (λ ds. ok (wanted args (convert_oracle no_details ds))))
                  results [],
            )
            (λ ps s. insert_roots database now Config.oracle ps 0 s)))

  -- the loop over the versions of Red Hat
  unfoldable pub insert_redhat :
      (Text → Text → Bool)
      → (Text → Option (OvalDocument (List RedhatDefinition)))
      → Map (List FetchResult)
      → ℕ
      → database.State
      → database.State × Outcome ℕ
  insert_redhat greater_than decode [] i s = (s, ok i)
  insert_redhat greater_than decode ((v, rs) ∷ m) i s =
      after_call (s, redhat_documents parse decode rs [])
        (λ docs s.
          after_call
            (insert_root database now Config.redhat v
              (convert_redhat greater_than parse no_details v (roots_of_version v docs)) i s)
            (insert_redhat greater_than decode m))

  unfoldable pub run_fetch_redhat :
      (Text → Text → Bool)
      → (List Text → Outcome (Map (List FetchResult)))
      → (Text → Option (OvalDocument (List RedhatDefinition)))
      → List Text
      → database.State
      → database.State × Outcome {0} Unit
  run_fetch_redhat greater_than fetch decode args = run_fetch database now (λ s.
      after_call (s, fetch (unique args))
        (λ results s. insert_redhat greater_than decode results 0 s))

  unfoldable pub run_fetch_suse :
      (Text → Bool)
      → (Text → List Text → Outcome (List FetchResult))
      → (Text → Option (OvalDocument SuseRoot))
      → Text
      → List Text
      → database.State
      → database.State × Outcome {0} Unit
  run_fetch_suse is_version fetch decode suse_type args s =
      after_call (s, suse_type_of suse_type)
        (λ family s.
          run_fetch database now
            (λ s.
              after_call (s, fetch family (unique args))
                (λ results s.
                  insert_files database now family
                    (λ r.
                      read_oval parse decode seconds r
                      >>= (λ root. convert_suse is_version no_details (file_name r.url) root))
                    results 0 s))
            s)

  unfoldable pub run_fetch_ubuntu :
      (Text → List (List Text))
      → (List Text → Outcome (List FetchResult))
      → (Text → Option (OvalDocument UbuntuRoot))
      → List Text
      → database.State
      → database.State × Outcome {0} Unit
  run_fetch_ubuntu find_submatches fetch decode args = run_fetch database now (λ s.
      after_call (s, fetch (unique args))
        (λ results s.
          insert_files database now Config.ubuntu
            (λ r. read_oval parse decode seconds r >>= (λ root.
              convert_ubuntu parse no_details find_submatches root
              >>= (λ ds. ok ((r.target, ds) ∷ []))))
            results 0 s))
