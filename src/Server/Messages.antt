-- ===== src/Server/Messages.antt =====
-- perseusapi: the messages of the service, and the errors that its handlers answer with.
use perseus.Prelude.{ℕ, Text, Bool, List}
use perseus.Prelude.Int.{ℤ}

pub record Module : Type 0 where
  pub name : Text
  pub versions : List Text

-- An enumeration of protobuf is open: a request may hold a number that has no name.
pub data VersionOption : Type 0 where
  option_none option_latest option_all : VersionOption
  option_other : ℕ → VersionOption

pub data Direction : Type 0 where
  dependencies dependents : Direction
  direction_other : ℕ → Direction

pub record ListModulesRequest : Type 0 where
  pub filter : Text
  pub page_token : Text
  pub page_size : ℤ

-- The response of `ListModules`, `ListModuleVersions` and `QueryDependencies`.
pub record ModulesResponse : Type 0 where
  pub modules : List Module
  pub next_page_token : Text

pub record ListModuleVersionsRequest : Type 0 where
  pub module_name : Text
  pub module_filter : Text
  pub version_filter : Text
  pub include_prerelease : Bool
  pub version_option : VersionOption
  pub page_token : Text
  pub page_size : ℤ

pub record UpdateDependenciesRequest : Type 0 where
  pub module_name : Text
  pub version : Text
  pub dependencies : List Module

pub record QueryDependenciesRequest : Type 0 where
  pub module_name : Text
  pub version : Text
  pub direction : Direction
  pub page_token : Text
  pub page_size : ℤ

-- connect.Code, as far as the handlers use it
pub data Code : Type 0 where
  invalid_argument internal : Code

-- One constructor for each error that a handler makes.
pub data ConnectError : Type 0 where
  name_required invalid_name invalid_version : ConnectError
  filter_required option_is_none paging_latest : ConnectError
  one_version_required invalid_module : ConnectError
  database_failed : ConnectError

abbrev pub code : ConnectError → Code
code database_failed = internal
code _ = invalid_argument
