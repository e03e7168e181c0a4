-- ===== src/Openspec/Model.antt =====
-- The documents of internal/openspec/model.go, model_delta.go and model_change.go.
use semdev.Base.{Bool, List, Text}

pub record Step : Type 0 where
  pub keyword : Text
  pub text : Text

pub record Scenario : Type 0 where
  pub name : Text
  pub steps : List Step

pub record Requirement : Type 0 where
  pub name : Text
  pub statement : Text
  pub scenarios : List Scenario

-- A warning of a parser: the message it formats and the name that it quotes.
pub data Warning : Type 0 where
  scenario_before_any : Text → Warning
  requirement_outside : Text → Warning
  removed_carries_more : Text → Warning

pub record Spec : Type 0 where
  pub capability : Text
  pub title : Text
  pub purpose : Text
  pub requirements : List Requirement
  pub warnings : List Warning

pub record Task : Type 0 where
  pub number : Text
  pub text : Text
  pub done : Bool

pub record TaskSection : Type 0 where
  pub name : Text
  pub tasks : List Task

pub record Tasks : Type 0 where
  pub title : Text
  pub sections : List TaskSection
