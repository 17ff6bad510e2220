-- ===== src/Router.antt =====
-- internal/router: which skill a text asks for.
pub mod Semantic
pub mod Rules
pub mod Args
pub mod Commands
pub mod Route
pub mod Examples
use open_light.Base.{Bool, true, false, List, [], not, ◌&&◌}
use open_light.Base.Text.{Text, trim_space, is_empty_text}
use open_light.Models.{Float64}

pub data Mode : Type 0 where
  slash explicit shortcut alias rule llm unknown : Mode

pub record Decision : Type 0 where
  pub mode : Mode
  pub skill_name : Text
  pub args : List (Text × Text)
  pub confidence : Float64
  pub needs_clarification : Bool
  pub clarification_question : Text

-- A decision of the router itself, which sets three fields.
abbrev pub decide : Mode → Text → List (Text × Text) → Decision
decide mode skill_name args = record {
  mode = mode;
  skill_name = skill_name;
  args = args;
  confidence = record { bits = 0 };
  needs_clarification = false;
  clarification_question = [];
}

unfoldable pub matched : Decision → Bool
matched d = not (is_empty_text (trim_space d.skill_name))

unfoldable pub should_clarify : Decision → Bool
should_clarify d =
    d.needs_clarification && not (is_empty_text (trim_space d.clarification_question))
