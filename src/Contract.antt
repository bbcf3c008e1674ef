-- ===== src/Contract.antt =====
-- src/ss_contracts/tooling/odcs.py: contracts and fields, as the loader hands them on.
pub mod Loading
pub mod Keys
pub mod Sound
pub mod Records
mod Bodies
pub mod Nested
mod Header
pub mod Documents
mod Tests
use ss_common.Prelude.{Bool, Option, Text, Dict}
use ss_common.Value.{Members}

-- A field of a message without the fields of its record type.
pub record FieldHead : Type 0 where
  pub name : Text
  pub logical_type : Text
  pub kind : Text
  pub required : Bool
  pub description : Text
  pub options : Members
  pub item_kind : Option Text
  pub binding : Dict Text Text
  pub generation : Dict Text Members
  pub record_name : Option Text
  pub record_description : Text

mutual
  pub data FieldSpec : Type 0 where
    field_spec : FieldHead → FieldSpecs → FieldSpec

  pub data FieldSpecs : Type 0 where
    nil : FieldSpecs
    cons : FieldSpec → FieldSpecs → FieldSpecs

pub record ContractSpec : Type 0 where
  pub contract_id : Text
  pub version : Text
  pub status : Text
  pub name : Text
  pub purpose : Text
  pub fields : FieldSpecs
  pub binding : Dict Text Text
  pub generation : Dict Text Members
