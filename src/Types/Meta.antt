-- ===== src/Types/Meta.antt =====
-- services/types/object.go, and the small objects of services/runservice/types: change groups,
-- sequences, run counters and events. A time is a number; a Kind and a Version are constants of
-- each type, and are left out.
use agola.Prelude.{ℕ, String, Map}

pub record ObjectMeta : Type 0 where
  pub id : String
  pub creation_time : ℕ
  pub update_time : ℕ
  pub revision : ℕ

abbrev pub new_meta : String → ObjectMeta
new_meta id = record { id = id; creation_time = 0; update_time = 0; revision = 0 }

pub record ChangeGroup : Type 0 where
  pub meta : ObjectMeta
  pub open meta use *
  pub name : String
  pub value : String

abbrev pub new_change_group : String → ChangeGroup
new_change_group id = record { meta = new_meta id; name = ""; value = "" }

pub data SequenceType : Type 0 where
  run run_event : SequenceType

pub record Sequence : Type 0 where
  pub meta : ObjectMeta
  pub open meta use *
  pub value : ℕ
  pub sequence_type : SequenceType

pub record RunCounter : Type 0 where
  pub meta : ObjectMeta
  pub open meta use *
  pub group_id : String
  pub value : ℕ

pub record ChangeGroupsUpdateToken : Type 0 where
  pub change_groups_values : Map String
