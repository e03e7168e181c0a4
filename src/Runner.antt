-- ===== src/Runner.antt =====
-- The isolation interface of internal/cleanroom/runner.go. `Runner` is a Go interface over docker or the
-- local shell: its three calls are functions of the outside world that they find, and return the
-- world that they leave. An error is the text of the Go error.
use semdev.Base.{List, Option, Text, ℤ, Result}

pub record Sandbox : Type 0 where
  pub work_dir : Text
  pub env : List (Text × Text)
  pub cache_homes : List Text
  pub handle : Text

-- `cleanroom.Result`: what a process that completed left.
pub record Output : Type 0 where
  pub exit_code : ℤ
  pub stdout : Text
  pub stderr : Text

pub record Runner (World : Type 0) : Type 0 where
  pub up : World → Text → List Text → Result Text Sandbox × World
  pub exec : World → Sandbox → List Text → Result Text Output × World
  pub down : World → Sandbox → Option Text × World
