-- ===== src/Converters/Oval.antt =====
-- The criteria of an OVAL document, as the types.go of models/debian, oracle, redhat and ubuntu
-- declare them, and the references that they share. The names of the elements, which encoding/xml
-- checks, are left out.
pub mod Walk
pub mod Said
use goval_dictionary_v.Prelude.{List}
use goval_dictionary_v.Text.{Text}

pub record Criterion : Type 0 where
  pub test_ref : Text
  pub comment : Text

-- A criteria with its operator, its nested criterias and its criterions; a list of criterias is a
-- type of its own.
mutual
  pub data Criteria : Type 0 where
    criteria : Text → Criterias → List Criterion → Criteria

  pub data Criterias : Type 0 where
    no_criterias : Criterias
    more_criterias : Criteria → Criterias → Criterias

pub record OvalReference : Type 0 where
  pub source : Text
  pub ref_id : Text
  pub ref_url : Text
